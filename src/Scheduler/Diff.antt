-- ===== src/Scheduler/Diff.antt =====
-- diffTargets of internal/scheduler/scheduler.go, and TargetConfig.Equal of internal/config/hash.go.
-- The maps are keyed by the name of the target that they hold, so a map is a list of targets with
-- distinct names; Go visits it in any order, the model in the list's.
pub mod Named
pub mod Exact
pub mod Starts
use netsonar.Base.{
  ℕ, ◌≡◌, Bool, true, false, not, String, str_eq, List, [], ◌∷◌, ◌++◌, Option, none, some,
  if◌then◌else◌, is_none,
}
use netsonar.Config.Types.{TargetConfig}
use Named.{find_name, put_name, keep}

-- HashTarget serialises a target to JSON and hashes it: a parameter, which may fail.
abbrev pub Hash : Type 0
Hash = TargetConfig → Option String

unfoldable pub equal : Hash → TargetConfig → TargetConfig → Bool
equal hash t other = elim (hash t) [
  | none ↦ false
  | some h1 ↦ elim (hash other) [ none ↦ false | some h2 ↦ str_eq h1 h2 ]
]

-- `for _, t := range targets { m[t.Name] = t }`.
unfoldable pub to_map : List TargetConfig → List TargetConfig → List TargetConfig
to_map [] m = m
to_map (t ∷ targets) m = to_map targets (put_name t m)

pub record Diff : Type 0 where
  pub to_stop : List TargetConfig
  pub to_start : List TargetConfig
  pub unchanged : List TargetConfig

-- The body of the loop over the new map.
diff_one : Hash → TargetConfig → Option TargetConfig → Diff → Diff
diff_one hash new_t none d = record d { to_start = d.to_start ++ new_t ∷ [] }
diff_one hash new_t (some old_t) d =
    if not (equal hash old_t new_t)
    then record d { to_stop = d.to_stop ++ old_t ∷ []; to_start = d.to_start ++ new_t ∷ [] }
    else record d { unchanged = d.unchanged ++ new_t ∷ [] }

diff_new : Hash → List TargetConfig → List TargetConfig → Diff → Diff
unfolding diff_one
diff_new hash old_map [] d = d
diff_new hash old_map (t ∷ new_map) d =
    diff_new hash old_map new_map (diff_one hash t (find_name t.name old_map) d)

pub diff_targets : Hash → List TargetConfig → List TargetConfig → Diff
diff_targets hash old_targets new_targets =
    let old_map = to_map old_targets [] in
    let new_map = to_map new_targets [] in
    diff_new hash old_map new_map (record {
      to_stop = keep (λ t. is_none (find_name t.name new_map)) old_map;
      to_start = [];
      unchanged = [];
    })
