-- ===== src/Doctor/Parse.antt =====
-- The parsing and counting of internal/doctor/doctor.go. strconv is a parameter.
pub mod Unique
pub mod Range
use Prim.Native.Char.{code}
use netsonar.Base.{
  ℕ, suc, Bool, true, false, ◌&&◌, ◌||◌, not, String, ◌<>◌, str_eq, is_blank, List, [], ◌∷◌, ◌++◌,
  if◌then◌else◌, ◌==◌,
}
use netsonar.Base.Int.{ℤ, leb_ℤ, eq_ℤ}
use netsonar.Base.Spaces.{trim_space, fields}
use netsonar.Config.Types.{ProbeType, dns, probe_type_text, TargetConfig}
use netsonar.Probe.Sockets.{Outcome, got, failed}

-- strconv.Atoi with the text of its error, and `%q`.
pub record Strconv : Type 0 where
  pub atoi : String → Outcome ℤ
  pub quote : String → String

module _ (conv : Strconv) where
  -- The end of the range, after its start.
  unfoldable pub parse_end : ℤ → String → Outcome (ℤ × ℤ)
  parse_end start b = elim (conv.atoi b) [
    | failed e ↦ failed ("invalid end gid " <> (conv.quote b <> (": " <> e)))
    | got end ↦ got (start, end)
  ]

  unfoldable pub parse_fields : String → List String → Outcome (ℤ × ℤ)
  unfolding parse_end
  parse_fields raw (a ∷ (b ∷ [])) = elim (conv.atoi a) [
    | failed e ↦ failed ("invalid start gid " <> (conv.quote a <> (": " <> e)))
    | got start ↦ parse_end start b
  ]
  parse_fields raw _ = failed ("expected two integers, got " <> conv.quote (trim_space raw))

  unfoldable pub parse_ping_group_range : String → Outcome (ℤ × ℤ)
  unfolding parse_fields
  parse_ping_group_range raw = parse_fields raw (fields raw)

unfoldable pub any_gid_in_range : List ℤ → ℤ → ℤ → Bool
any_gid_in_range [] start end = false
any_gid_in_range (gid ∷ gids) start end =
    if leb_ℤ start gid && leb_ℤ gid end then true else any_gid_in_range gids start end

-- `seen[value]`, for the values that were set to true.
abbrev pub int_mem : ℤ → List ℤ → Bool
int_mem v [] = false
int_mem v (s ∷ seen) = eq_ℤ v s || int_mem v seen

unfoldable pub drop_seen : List ℤ → List ℤ → List ℤ
drop_seen seen [] = []
drop_seen seen (v ∷ values) =
    let skip = drop_seen seen values in
    let keep = v ∷ drop_seen (v ∷ seen) values in if int_mem v seen then skip else keep

-- sort.Ints.
unfoldable pub insert_int : ℤ → List ℤ → List ℤ
insert_int v [] = v ∷ []
insert_int v (w ∷ ws) = if leb_ℤ v w then v ∷ (w ∷ ws) else w ∷ insert_int v ws

unfoldable pub sort_ints : List ℤ → List ℤ
unfolding insert_int
sort_ints [] = []
sort_ints (v ∷ vs) = insert_int v (sort_ints vs)

unfoldable pub unique_ints : List ℤ → List ℤ
unfolding drop_seen sort_ints
unique_ints values = sort_ints (drop_seen [] values)

-- strings.Split(s, "\n").
abbrev cons_line : String → List String → List String
cons_line c [] = c ∷ []
cons_line c (line ∷ lines) = (c <> line) ∷ lines

unfoldable pub split_lines : String → List String
split_lines String.[] = "" ∷ []
split_lines (String.◌∷◌ c s) =
    let rest = split_lines s in if code c == 10 then "" ∷ rest else cons_line (String.◌∷◌ c "") rest

-- strings.HasPrefix with a prefix of one character.
unfoldable pub begins_with : ℕ → String → Bool
begins_with c String.[] = false
begins_with c (String.◌∷◌ d s) = code d == c

-- `append(nameservers, fields[1])`, if the fields are of such a line.
unfoldable pub nameserver_of : List String → List String
nameserver_of (keyword ∷ (server ∷ rest)) = if str_eq keyword "nameserver" then server ∷ [] else []
nameserver_of _ = []

unfoldable pub line_nameservers : String → List String
unfolding nameserver_of begins_with
line_nameservers raw =
    let line = trim_space raw in
    if is_blank line || (begins_with b'#' line || begins_with b';' line)
    then []
    else nameserver_of (fields line)

unfoldable pub nameservers_of : List String → List String
unfolding line_nameservers
nameservers_of [] = []
nameservers_of (line ∷ lines) = line_nameservers line ++ nameservers_of lines

unfoldable pub parse_nameservers : String → List String
unfolding nameservers_of split_lines
parse_nameservers resolv_conf = nameservers_of (split_lines resolv_conf)

-- `target.ProbeType == t`.
unfoldable pub has_type : ProbeType → TargetConfig → Bool
unfolding probe_type_text
has_type t target = str_eq (probe_type_text target.probe_type) (probe_type_text t)

-- The number of DNS targets, and of those among them that have no server of their own.
unfoldable pub count_dns_targets : List TargetConfig → ℕ × ℕ
unfolding has_type
count_dns_targets [] = (0, 0)
count_dns_targets (t ∷ targets) =
    let (total, without) = count_dns_targets targets in
    if not (has_type dns t)
    then (total, without)
    else (suc total, if is_blank t.probe_opts.dns_server then suc without else without)
