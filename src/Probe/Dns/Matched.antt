-- ===== src/Probe/Dns/Matched.antt =====
-- What the DNS probe of internal/probe/dns.go reports.
use mathlib.Core.List.{Perm}
use mathlib.Core.Bool.{false≢true}
use mathlib.Core.Logic.{∥∥₁_elim}
use netsonar.Base.{
  ◌≡◌, ◌↔◌, refl, sym, ◌∙◌, Bool, true, false, not, String, str_eq_iff, is_blank, NonEmpty-<>, List,
  [], ◌∷◌, map, if◌then◌else◌, length, ◌==◌, arith, Bool-cases, is_empty, ◌&&◌, inl, inr, some,
}
use netsonar.Base.Int.{ℤ, sub64}
use netsonar.Config.Types.{TargetConfig}
use netsonar.Config.TagKeys.{sort_strings}
use netsonar.Config.TagKeys.Order.{sort_strings-perm, perm_of_sort_strings-eq}
use netsonar.Probe.Result.{ProbeResult}
use netsonar.Probe.Resolve.{resolver_for}
use netsonar.Probe.Sockets.{Outcome, got, failed}
use netsonar.Probe.Dns.Normal.{IsNormal, normalize_one-IsNormal}
use netsonar.Probe.Dns.{
  DnsOps, same_strings, normalize_one, normalize, match_expected, judge_expected, judge_records,
  resolve, build_dns_resolver, option_or, dns_probe,
}

same_strings-eq :
    (gs ws : List String)
    → (if not (length gs == length ws) then false else same_strings gs ws) ≡ true
    → gs ≡ ws
unfolding same_strings
same_strings-eq [] [] h = refl
same_strings-eq [] (w ∷ ws) h = ground arith
same_strings-eq (g ∷ gs) [] h = ground arith
same_strings-eq (g ∷ gs) (w ∷ ws) h = ground (arith, str_eq_iff g w, same_strings-eq gs ws)

same_strings_refl :
    (gs : List String) → (if not (length gs == length gs) then false else same_strings gs gs) ≡ true
unfolding same_strings
same_strings_refl [] = refl
same_strings_refl (g ∷ gs) = ground (arith, str_eq_iff g g, same_strings_refl gs)

module _ {W : Type 0} (ops : DnsOps W) where
  -- The answers as often and in any order, by their normal forms.
  abbrev pub SameAnswers : (String → String) → List String → List String → Type 0
  SameAnswers norm rs es = Perm (map norm rs) (map norm es)

  -- The comparison of answers holds exactly if they are the same values as often, in any order.
  pub match_expected_iff :
      (rs es : List String)
      → (match_expected ops rs es ≡ true) ↔ SameAnswers (normalize_one ops) rs es
  unfolding match_expected normalize
  match_expected_iff rs es = (
    λ h. perm_of_sort_strings-eq _ _ (same_strings-eq _ _ h),
    λ p. ∥∥₁_elim p (hlevel) (λ q.
        rw (sort_strings-perm _ _ q)
          (same_strings_refl (sort_strings (map (normalize_one ops) es)))),
  )

  -- What counts as the answer that is wanted: any record, or those that are expected.
  abbrev pub Wanted : (String → String) → Outcome (List String) → List String → Type 0
  Wanted norm (failed e) es = ⊥
  Wanted norm (got rs) [] = is_empty rs ≡ false
  Wanted norm (got rs) (e ∷ es) = (is_empty rs ≡ false) × SameAnswers norm rs (e ∷ es)

  abbrev pub answered : Outcome (List String) → Bool
  answered (failed e) = false
  answered (got rs) = true

  -- The lookup that the options of a target ask for, an A record of its address by default.
  unfoldable pub lookup_of : TargetConfig → W → Outcome (List String) × W
  lookup_of target w =
      let opts = target.probe_opts in
      resolve ops (build_dns_resolver ops opts.dns_server (some (resolver_for target.dns_resolver)))
        (option_or opts.dns_query_name target.address) (option_or opts.dns_query_type "A") w

  -- The report of an answer; `looked` is how long the lookup took.
  pub record IsDnsReport (norm : String → String) (answer : Outcome (List String))
      (es : List String) (looked : ℤ) (r : ProbeResult) : Type 0 where
    pub succeeds : (r.success ≡ true) ↔ Wanted norm answer es
    pub explained : is_blank r.error ≡ r.success
    pub evaluated : r.dns_match_evaluated ≡ (answered answer && not (is_empty es))
    pub matched : r.dns_matched ≡ (r.dns_match_evaluated && r.success)
    pub timed : (r.duration ≡ looked) × (r.dns_resolve_time ≡ looked)

  judge_expected-IsDnsReport :
      (looked : ℤ) (a e : String) (rs es : List String) (r : ProbeResult)
      → r.error ≡ ""
      → (r.duration ≡ looked) × (r.dns_resolve_time ≡ looked)
      → IsDnsReport
          (normalize_one ops)
          (got (a ∷ rs))
          (e ∷ es)
          looked
          (judge_expected ops r (a ∷ rs) (e ∷ es))
  unfolding judge_expected
  judge_expected-IsDnsReport looked a e rs es r b t =
      let i = match_expected_iff (a ∷ rs) (e ∷ es) in
      elim (Bool-cases (match_expected ops (a ∷ rs) (e ∷ es))) [
        | inl m ↦ rw m record {
          succeeds = (λ _. (refl, i.0 m), λ _. refl);
          explained = rw b refl;
          evaluated = refl;
          matched = refl;
          timed = t;
        }
        | inr n ↦ rw n record {
          succeeds = (λ h. absurd (cc), λ h. absurd (false≢true (sym n ∙ i.1 h.1)));
          explained = NonEmpty-<> "dns expected result mismatch: got " _ refl;
          evaluated = refl;
          matched = refl;
          timed = t;
        }
      ]

  judge_records-IsDnsReport :
      (looked : ℤ) (answer : Outcome (List String)) (es : List String) (r : ProbeResult)
      → r.error ≡ ""
      → r.success ≡ false
      → r.dns_match_evaluated ≡ false
      → r.dns_matched ≡ false
      → (r.duration ≡ looked) × (r.dns_resolve_time ≡ looked)
      → IsDnsReport (normalize_one ops) answer es looked (judge_records ops r answer es)
  unfolding judge_records
  judge_records-IsDnsReport looked (failed x) es r b s v m t = record {
    succeeds = (λ h. absurd (false≢true (sym s ∙ h)), λ h. absurd h);
    explained = NonEmpty-<> "dns resolve: " x refl ∙ sym s;
    evaluated = v;
    matched = rw v m;
    timed = t;
  }
  judge_records-IsDnsReport looked (got []) [] r b s v m t = record {
    succeeds = (λ h. absurd (false≢true (sym s ∙ h)), λ h. absurd (cc));
    explained = sym s;
    evaluated = v;
    matched = rw v m;
    timed = t;
  }
  judge_records-IsDnsReport looked (got []) (e ∷ es) r b s v m t = record {
    succeeds = (λ h. absurd (false≢true (sym s ∙ h)), λ h. absurd (cc (h.0)));
    explained = sym s;
    evaluated = refl;
    matched = sym s;
    timed = t;
  }
  judge_records-IsDnsReport looked (got (a ∷ rs)) [] r b s v m t = record {
    succeeds = (λ _. refl, λ _. refl);
    explained = rw b refl;
    evaluated = v;
    matched = rw v m;
    timed = t;
  }
  judge_records-IsDnsReport looked (got (a ∷ rs)) (e ∷ es) r b s v m t =
      judge_expected-IsDnsReport looked a e rs es r b t

-- A DNS probe succeeds exactly if the lookup gave a record and, where results are expected, the records
-- are those as often and in any order, up to case, spaces at the ends and one final dot. It has an error
-- text exactly if it fails, it evaluates the match exactly if there is an answer and something is
-- expected, and both durations are the time of the lookup.
pub dns_probe-IsDnsReport :
    {W : Type 0} (ops : DnsOps W) (target : TargetConfig) (w : W)
    → (norm : String → String) × ((v : String) → IsNormal ops.to_lower v (norm v))
      × IsDnsReport ops norm
          (lookup_of ops target (ops.env.now w).1).0
          target.probe_opts.dns_expected_results
          (sub64 (ops.env.now (lookup_of ops target (ops.env.now w).1).1).0 (ops.env.now w).0)
          (dns_probe ops target w).0
unfolding dns_probe lookup_of
dns_probe-IsDnsReport ops target w = (
  normalize_one ops,
  normalize_one-IsNormal ops,
  judge_records-IsDnsReport ops _ _ target.probe_opts.dns_expected_results _ refl refl refl refl
      (refl, refl),
)
