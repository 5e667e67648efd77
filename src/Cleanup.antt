-- ===== src/Cleanup.antt =====
-- bin/cleanup/cleanup.py: the script that deletes what old tests have left behind. The flags' values are
-- arguments; a time is its number of seconds. What deletes a resource is a field of its rule, as in the
-- code. A rule's expression is a text without special characters before its group `(.*)`, and a name has
-- no line break, so that the group is the rest of the name.
pub mod Legacy
mod Selection
mod Attempts
mod Samples
use Prim.Native.String.{◌++◌, len, find, slice}
use psm_interop.Common.{
  ◌++◌ as ◌<+>◌, ℕ, suc, ◌+◌, String, Bool, true, false, Option, none, some, List, [], ◌∷◌, ltb,
  not, str_eq, contains, if◌then◌else◌, map,
}
use psm_interop.Common.Effects.{Outcome, returned, raised, Effect, pure, ◌>>=◌, ◌>>◌}
use psm_interop.Common.Decimal.{decimal}
use psm_interop.Errors.{Exception, retry_error, retry_error_of_result, not_found}

-- `re.search(text + "(.*)", name)`, and the group of the match: behind the first place of the text.
unfoldable pub search : (text name : String) → Option String
search text name =
    let at = find name text in
    if ltb (len name) at then none else some (slice name (at + len text) (len name))

-- The suffixes to keep, of keep_xds_interop_resources.json.
pub record KeepConfig : Type 0 where
  pub gce_framework : List String
  pub gke_framework : List String

unfoldable pub is_marked_as_keep_gce : KeepConfig → String → Bool
is_marked_as_keep_gce config suffix = contains suffix config.gce_framework

unfoldable pub is_marked_as_keep_gke : KeepConfig → String → Bool
is_marked_as_keep_gke config suffix = contains suffix config.gke_framework

-- What is the same for all resources of a run.
pub record Options : Type 0 where
  pub project : String
  pub network : String
  pub enable_dualstack : Bool
  pub compute_api_version : String

-- A tuple of `td_resource_rules`, and the call of its last item.
pub record TdRule (W : Type 0) : Type 0 where
  pub text : String
  pub prefix : String
  pub keep : String → Bool
  pub remove_fn : Options → (prefix suffix : String) → Effect W Exception (Unit {0})

module _ {W : Type 0} (options : Options) where
  abbrev remove_unless_kept : TdRule W → String → Effect W Exception (Unit {0})
  remove_unless_kept rule suffix =
      if rule.keep suffix then pure tt else rule.remove_fn options rule.prefix suffix

  abbrev or_else :
      Option String → TdRule W → Effect W Exception (Unit {0}) → Effect W Exception (Unit {0})
  or_else none rule rest = rest
  or_else (some suffix) rule rest = remove_unless_kept rule suffix

  -- The inner loop: the first rule that matches decides.
  unfoldable pub apply_rules : List (TdRule W) → (name : String) → Effect W Exception (Unit {0})
  apply_rules [] name = pure tt
  apply_rules (rule ∷ rules) name = or_else (search rule.text name) rule (apply_rules rules name)

  -- The resources are given by their names, all that is read of them.
  unfoldable pub delete_leaked_td_resources :
      (dry_run : Bool) → List (TdRule W) → List String → Effect W Exception (Unit {0})
  delete_leaked_td_resources dry_run rules [] = pure tt
  delete_leaked_td_resources dry_run rules (name ∷ names) = do
    if dry_run then pure tt else apply_rules rules name
    delete_leaked_td_resources dry_run rules names

abbrev legacy_rule :
    {W : Type 0}
    → KeepConfig
    → (Options → (prefix suffix : String) → Effect W Exception (Unit {0}))
    → (text : String) → TdRule W
legacy_rule config legacy text = record {
  text = text;
  prefix = "";
  keep = is_marked_as_keep_gce config;
  remove_fn = legacy;
}

-- The rules of `find_and_remove_leaked_td_resources`, for the functions that delete.
unfoldable pub td_resource_rules :
    {W : Type 0} (config : KeepConfig) (mode : String) (prefixes : List String)
    (legacy gke : Options → (prefix suffix : String) → Effect W Exception (Unit {0}))
    → List (TdRule W)
td_resource_rules config mode prefixes legacy gke =
    let for_prefixes =
      map
        (λ p. record {
          text = p ++ "-health-check-";
          prefix = p;
          keep = is_marked_as_keep_gke config;
          remove_fn = gke;
        })
        prefixes in
    if str_eq mode "td_no_legacy"
    then for_prefixes
    else legacy_rule config legacy "test-hc"
      ∷ legacy_rule config legacy "test-template"
      ∷ for_prefixes

pub record CleanupResult : Type 0 where
  pub error_count : ℕ
  pub error_messages : List String

unfoldable pub add_error : String → CleanupResult → CleanupResult
add_error msg result = record {
  error_count = suc result.error_count;
  error_messages =
      result.error_messages <+> (("  " ++ decimal (suc result.error_count) ++ ". " ++ msg) ∷ []);
}

-- `"\n".join(messages)`
unfoldable pub format_messages : List String → String
format_messages [] = ""
format_messages (m ∷ []) = m
format_messages (m ∷ n ∷ ms) = m ++ "\n" ++ format_messages (n ∷ ms)

-- The end of `main`.
unfoldable pub exit_status : CleanupResult → ℕ
exit_status result = if ltb 0 result.error_count then 1 else 0

-- The handlers of a cleanup.
unfoldable pub note :
    (str : Exception → String) → (namespace : String) → Exception → CleanupResult → CleanupResult
note str namespace not_found result = result
note str namespace (retry_error e) result =
    add_error
      ("Retries exhausted while waiting for the deletion of namespace "
        ++ namespace
        ++ ": "
        ++ str (retry_error e))
      result
note str namespace retry_error_of_result result =
    add_error
      ("Retries exhausted while waiting for the deletion of namespace "
        ++ namespace
        ++ ": "
        ++ str retry_error_of_result)
      result
note str namespace e result =
    add_error ("Unexpected error while deleting namespace " ++ namespace ++ ": " ++ str e) result

abbrev pub noted :
    (str : Exception → String)
    → (namespace : String) → Outcome Exception (Unit {0})
    → CleanupResult
    → CleanupResult
noted str namespace (returned x) result = result
noted str namespace (raised e) result = note str namespace e result

pub record Namespace : Type 0 where
  pub name : String
  pub creation_timestamp : ℕ

-- A rule, and the call of its function with what is the same for all namespaces.
pub record K8sRule (W : Type 0) : Type 0 where
  pub text : String
  pub cleanup_ns_fn :
      (namespace : String) → (suffix : Option String) → Effect W Exception (Unit {0})

unfoldable pub protected_namespaces : List String
protected_namespaces =
    "default" ∷ "gke-managed-system" ∷ "kube-node-lease" ∷ "kube-public" ∷ "kube-system" ∷ []

-- The script's global result, and the world around it.
pub record Run (W : Type 0) : Type 0 where
  pub result : CleanupResult
  pub world : W

module _ {W : Type 0} where
  unfoldable pub rule_match_k8s_namespace : String → List (K8sRule W) → Option (K8sRule W)
  rule_match_k8s_namespace name [] = none
  rule_match_k8s_namespace name (rule ∷ rules) =
      let rest = rule_match_k8s_namespace name rules in matched (search rule.text name) rest
    where
      matched : Option String → Option (K8sRule W) → Option (K8sRule W)
      matched none rest = rest
      matched (some suffix) rest = some rule

  module _ (str : Exception → String) (secondary : Bool) where
    unfoldable pub attempt : K8sRule W → (namespace : String) → Run W → Run W
    attempt rule namespace s =
        let end = rule.cleanup_ns_fn namespace (if secondary then some "alt" else none) s.world in
        record { result = noted str namespace end.0 s.result; world = end.1 }

    abbrev pub attempt_if_any : Option (K8sRule W) → (namespace : String) → Run W → Run W
    attempt_if_any none namespace s = s
    attempt_if_any (some rule) namespace s = attempt rule namespace s

    -- The body of the loop, with its four reasons to go on with the next namespace.
    unfoldable pub visit :
        (dry_run : Bool) → (expire : ℕ) → List (K8sRule W) → Namespace → Run W → Run W
    visit dry_run expire rules ns s =
        if contains ns.name protected_namespaces
        then s
        else if ltb expire ns.creation_timestamp
        then s
        else if dry_run
        then s
        else attempt_if_any (rule_match_k8s_namespace ns.name rules) ns.name s

    unfoldable pub delete_k8s_resources :
        (dry_run : Bool) → (expire : ℕ) → List (K8sRule W) → List Namespace → Run W → Run W
    delete_k8s_resources dry_run expire rules [] s = s
    delete_k8s_resources dry_run expire rules (ns ∷ nss) s =
        delete_k8s_resources dry_run expire rules nss (visit dry_run expire rules ns s)
