-- ===== src/Doctor/Text.antt =====
-- WriteText of internal/doctor/doctor.go, and the doctor mode of run in cmd/agent/main.go. What is written
-- is one text; the errors of the writer are ignored in the source.
use netsonar.Base.{
  ℕ, String, ◌<>◌, str_eq, is_blank, List, [], ◌∷◌, if◌then◌else◌, show_ℕ, is_empty,
}
use netsonar.Config.Types.{Config}
use netsonar.Config.TagKeys.{sort_strings}
use netsonar.Probe.Sockets.{Outcome}
use netsonar.Doctor.Parse.{Strconv}
use netsonar.Doctor.{
  Severity, pass, warn, fail, skip, Check, Result, Env, Filled, count_of, run_with_options, all_ok,
}

severity_text : Severity → String
severity_text pass = "PASS"
severity_text warn = "WARN"
severity_text fail = "FAIL"
severity_text skip = "SKIP"

-- sectionChecks.
unfoldable pub section_checks : String → List Check → List Check
section_checks section [] = []
section_checks section (c ∷ checks) =
    let rest = section_checks section checks in if str_eq c.section section then c ∷ rest else rest

keys_of : List (String × ℕ) → List String
keys_of [] = []
keys_of ((k, n) ∷ m) = k ∷ keys_of m

unfoldable pub sorted_probe_types : List (String × ℕ) → List String
unfolding keys_of
sorted_probe_types counts = sort_strings (keys_of counts)

write_counts : List String → List (String × ℕ) → String
write_counts [] counts = ""
write_counts (k ∷ ks) counts =
    "  " <> (k <> (": " <> (show_ℕ (count_of k counts) <> ("\n" <> write_counts ks counts))))

write_check : Check → String
unfolding severity_text
write_check c =
    let detail = if is_blank c.detail then "" else ": " <> c.detail in
    let hint = if is_blank c.hint then "" else "    hint: " <> (c.hint <> "\n") in
    "  [" <> (severity_text c.severity <> ("] " <> (c.name <> (detail <> ("\n" <> hint)))))

write_checks : List Check → String
unfolding write_check
write_checks [] = ""
write_checks (c ∷ checks) = write_check c <> write_checks checks

write_sections : List String → List Check → String
unfolding write_checks section_checks
write_sections [] checks = ""
write_sections (section ∷ sections) checks =
    let here = section_checks section checks in
    let rest = write_sections sections checks in
    if is_empty here then rest else section <> (":\n" <> (write_checks here <> ("\n" <> rest)))

abbrev pub section_order : List String
section_order = "Config" ∷ "Process" ∷ "ListenAddr" ∷ "ICMP" ∷ "MTU" ∷ "DNS" ∷ []

unfoldable pub write_text : Result → String
unfolding write_counts sorted_probe_types write_sections
write_text r =
    let counts =
      if is_empty r.target_counts
      then ""
      else "Targets:\n"
        <> (write_counts (sorted_probe_types r.target_counts) r.target_counts <> "\n") in
    "NetSonar doctor\n\nConfig path: "
    <> (r.config_path
        <> ("\n"
            <> (counts
                <> (write_sections section_order r.checks
                    <> (if all_ok r.checks then "Result: OK\n" else "Result: FAIL\n")))))

-- The doctor mode: what it prints, and its exit code.
unfoldable pub run_doctor : Strconv → Filled → String → Outcome Config → Env → String → String × ℕ
unfolding write_text
run_doctor conv os config_path loaded env listen_addr =
    let r = run_with_options conv os config_path loaded env listen_addr in
    (write_text r, if all_ok r.checks then 0 else 1)
