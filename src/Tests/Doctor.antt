-- ===== src/Tests/Doctor.antt =====
-- The doctor on a host that lets no group ping.
use Prim.Native.Char.{code}
use netsonar.Base.{
  ℕ, zero, suc, ap, NonEmpty, ◌==◌, ◌≡◌, refl, String, ◌<>◌, List, [], ◌∷◌, none, some,
  if◌then◌else◌, arith,
}
use netsonar.Base.Spaces.{is_space, NoSpace}
use netsonar.Base.Int.{ℤ, pos, negsuc}
use netsonar.Probe.Sockets.{Outcome, got, failed}
use netsonar.Doctor.{Env, Filled, run_with_options, all_ok}
use netsonar.Doctor.Healthy.{expected_ok}
use netsonar.Doctor.Healthy.Exact.{run_with_options-IsHealthy}
use netsonar.Doctor.Parse.{Strconv, int_mem, unique_ints, parse_ping_group_range}
use netsonar.Doctor.Parse.Range.{parse_ping_group_range-printed}
use netsonar.Doctor.Parse.Unique.{IsAscending, unique_ints-IsAscending}
use netsonar.Tests.Samples.{second_config}

-- Numbers in strokes: a sign, and as many ones.
abbrev strokes : ℕ → String
strokes zero = ""
strokes (suc n) = String.◌∷◌ "1" (strokes n)

abbrev stroke_count : String → ℕ
stroke_count String.[] = 0
stroke_count (String.◌∷◌ c s) = suc (stroke_count s)

abbrev print : ℤ → String
print (pos n) = String.◌∷◌ "+" (strokes n)
print (negsuc n) = String.◌∷◌ "-" (strokes n)

abbrev read_strokes : String → Outcome ℤ
read_strokes String.[] = failed "invalid syntax"
read_strokes (String.◌∷◌ c s) =
    if code c == b'-' then got (negsuc (stroke_count s)) else got (pos (stroke_count s))

abbrev conv : Strconv
conv = record { atoi = read_strokes; quote = λ s. s }

strokes-NoSpace : (n : ℕ) → NoSpace (strokes n)
unfolding is_space
strokes-NoSpace zero = tt
strokes-NoSpace (suc n) = (refl, strokes-NoSpace n)

stroke_count-strokes : (n : ℕ) → stroke_count (strokes n) ≡ n
stroke_count-strokes zero = refl
stroke_count-strokes (suc n) = ap suc (stroke_count-strokes n)

print-read : (n : ℤ) → NonEmpty (print n) × NoSpace (print n) × (read_strokes (print n) ≡ got n)
unfolding is_space
print-read (pos n) =
    (refl, (refl, strokes-NoSpace n), ap (λ k. got (pos k)) (stroke_count-strokes n))
print-read (negsuc n) =
    (refl, (refl, strokes-NoSpace n), ap (λ k. got (negsuc k)) (stroke_count-strokes n))

parse_ping_group_range-printed_example :
    parse_ping_group_range conv (print (pos 1) <> ("\t" <> (print (pos 3) <> "\n")))
    ≡ got (pos 1, pos 3)
unfolding is_space
parse_ping_group_range-printed_example =
    parse_ping_group_range-printed conv print 1 3 "\t" "\n" (λ n l. print-read (pos n))
      (omega arith) (omega arith) refl (refl, tt) (refl, tt)

abbrev os : Filled
os = record {
  read_file = λ s. got "1 0";
  getuid = pos 100;
  getgid = pos 100;
  getgroups = got [];
  open_unprivileged_icmp = none;
  check_mtu_ping_socket = none;
  listen_tcp = λ a. got tt;
}

abbrev env : Env
env = record {
  read_file = none;
  getuid = none;
  getgid = none;
  getgroups = none;
  open_unprivileged_icmp = none;
  check_mtu_ping_socket = some (got tt);
  listen_tcp = none;
}

run_with_options-IsHealthy_example :
    all_ok (run_with_options conv os "netsonar.yaml" (got second_config) env "").checks
    ≡ expected_ok conv os (got second_config) env ""
run_with_options-IsHealthy_example =
    run_with_options-IsHealthy conv os "netsonar.yaml" (got second_config) env ""

abbrev groups : List ℤ
groups = pos 27 ∷ pos 4 ∷ pos 27 ∷ []

unique_ints-IsAscending_example :
    IsAscending (unique_ints groups) × ((x : ℤ) → int_mem x (unique_ints groups) ≡ int_mem x groups)
unique_ints-IsAscending_example = unique_ints-IsAscending groups
