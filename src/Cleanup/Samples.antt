-- ===== src/Cleanup/Samples.antt =====
-- The cleanup script on concrete resources and namespaces.
use psm_interop.Common.{
  ◌≡◌, ℕ, suc, refl, String, true, false, none, some, List, [], ◌∷◌, ◌↔◌, length, str_eq,
  if◌then◌else◌,
}
use psm_interop.Common.Effects.{returned, raised}
use psm_interop.Errors.{value_error}
use psm_interop.Cleanup.{
  Options, TdRule, search, apply_rules, delete_leaked_td_resources, exit_status, Namespace, K8sRule,
  Run, rule_match_k8s_namespace, note, attempt, visit, delete_k8s_resources, protected_namespaces,
  add_error,
}
use psm_interop.Cleanup.Selection.{
  Removal, Removals, remove_all, delete_leaked_td_resources-Removals,
}
use psm_interop.Cleanup.Attempts.{Cleanups, delete_k8s_resources-Cleanups}

search_suffix :
    search "psm-interop-health-check-" "psm-interop-health-check-20260101" ≡ some "20260101"
unfolding search
search_suffix = refl

search_inside : search "test-hc" "my-test-hc-1" ≡ some "-1"
unfolding search
search_inside = refl

search_nothing : search "test-hc" "psm" ≡ none
unfolding search
search_nothing = refl

abbrev options : Options
options = record {
  project = "p";
  network = "n";
  enable_dualstack = false;
  compute_api_version = "v1";
}

-- Each removal is counted.
abbrev rules : List (TdRule ℕ)
rules =
    record {
      text = "test-hc";
      prefix = "";
      keep = λ suffix. str_eq suffix "-keep";
      remove_fn = λ _ _ _ w. (returned tt, suc w);
    }
    ∷ []

abbrev leaked : List String
leaked = "test-hc-1" ∷ "test-hc-keep" ∷ "other" ∷ "test-hc-2" ∷ []

two_removed : delete_leaked_td_resources options false rules leaked 0 ≡ (returned tt, 2)
unfolding delete_leaked_td_resources apply_rules search
two_removed = refl

delete_leaked_td_resources-Removals_example :
    (rs : List (Removal ℕ)) × Removals rules leaked rs
    × ((w : ℕ) → delete_leaked_td_resources options false rules leaked w ≡ remove_all options rs w)
    × ((w : ℕ) → delete_leaked_td_resources options true rules leaked w ≡ (returned tt, w))
delete_leaked_td_resources-Removals_example =
    delete_leaked_td_resources-Removals options rules leaked

abbrev k8s_rules : List (K8sRule ℕ)
k8s_rules =
    record {
      text = "psm-interop-client-";
      cleanup_ns_fn = λ name suffix w.
          (if str_eq name "psm-interop-client-2" then raised value_error else returned tt, suc w);
    }
    ∷ []

abbrev namespaces : List Namespace
namespaces =
    record { name = "default"; creation_timestamp = 0 }
    ∷ record { name = "psm-interop-client-1"; creation_timestamp = 0 }
    ∷ record { name = "psm-interop-client-2"; creation_timestamp = 0 }
    ∷ record { name = "psm-interop-client-3"; creation_timestamp = 9 }
    ∷ record { name = "psm-interop-client-4"; creation_timestamp = 0 }
    ∷ []

abbrev swept : Run ℕ
swept =
    delete_k8s_resources (λ e. "error") false false 5 k8s_rules namespaces
      (record { result = record { error_count = 0; error_messages = [] }; world = 0 })

one_failed : (swept.world ≡ 3) × (swept.result.error_count ≡ 1)
unfolding delete_k8s_resources visit protected_namespaces rule_match_k8s_namespace search attempt
    note add_error
one_failed = (refl, refl)

delete_k8s_resources-Cleanups_example :
    (k : ℕ) × Cleanups (λ e. "error") false false 5 k8s_rules namespaces 0 swept.world k
    × (swept.result.error_count ≡ k)
    × (length swept.result.error_messages ≡ k)
    × ((exit_status swept.result ≡ 0) ↔ (k ≡ 0))
delete_k8s_resources-Cleanups_example =
    delete_k8s_resources-Cleanups (λ e. "error") false false 5 k8s_rules namespaces 0
