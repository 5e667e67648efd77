-- ===== src/Gcp/Iam/Responses.antt =====
-- framework/infrastructure/gcp/iam.py: `from_response` and `as_dict` of Expr, Binding and Policy.
-- A JSON object is a record of its known keys, a missing key being `none`, and the keyword arguments
-- of Expr are the pairs of their object.
use psm_interop.Gcp.Iam.Sets.{given, given-add, contains-with_member}
use psm_interop.Common.{
  ap, ◌∙◌, ◌||◌, ℕ, String, ◌≡◌, refl, Bool, true, false, Option, none, some, List, [], ◌∷◌, ◌&&◌,
  arith, str_eq, contains, if◌then◌else◌,
}
use psm_interop.Common.Effects.{Outcome, returned, raised, and_then}
use psm_interop.Errors.{Exception, key_error, type_error}
use psm_interop.Gcp.Iam.{Expr, Binding, Policy, add, with_member, has_equal, is_for}

pub lookup : String → List (String × String) → Option String
lookup k [] = none
lookup k ((j, v) ∷ kvs) = if str_eq j k then some v else lookup k kvs

abbrev expr_fields : List String
expr_fields = "expression" ∷ "title" ∷ "description" ∷ "location" ∷ []

all_known : List (String × String) → Bool
all_known [] = true
all_known ((k, v) ∷ kvs) = contains k expr_fields && all_known kvs

abbrev or_empty : Option String → String
or_empty none = ""
or_empty (some s) = s

abbrev expr_with : Option String → List (String × String) → Outcome Exception Expr
expr_with none kvs = raised type_error
expr_with (some e) kvs = returned (record {
  expression = e;
  title = or_empty (lookup "title" kvs);
  description = or_empty (lookup "description" kvs);
  location = or_empty (lookup "location" kvs);
})

-- `Expr(**response)`: an unknown keyword is a TypeError, and so is a missing `expression`.
unfoldable pub expr_from_response : List (String × String) → Outcome Exception Expr
unfolding lookup all_known
expr_from_response kvs =
    if all_known kvs then expr_with (lookup "expression" kvs) kvs else raised type_error

unfoldable pub expr_as_dict : Expr → List (String × String)
expr_as_dict e =
    ("expression", e.expression)
    ∷ ("title", e.title)
    ∷ ("description", e.description)
    ∷ ("location", e.location)
    ∷ []

pub record BindingResponse : Type 0 where
  pub role : Option String
  pub members : Option (List String)
  pub condition : Option (List (String × String))

pub record PolicyResponse : Type 0 where
  pub bindings : Option (List BindingResponse)
  pub etag : Option String
  pub version : Option ℕ

-- `response[key]` and `response.get(key, [])`
abbrev required : {A : Type 0} → Option A → Outcome Exception A
required none = raised key_error
required (some a) = returned a

abbrev or_nil : {A : Type 0} → Option (List A) → List A
or_nil none = []
or_nil (some xs) = xs

-- frozenset(members)
unfoldable pub member_set : List String → List String
member_set [] = []
member_set (m ∷ ms) = with_member m (member_set ms)

abbrev parsed_condition : Option (List (String × String)) → Outcome Exception (Option Expr)
parsed_condition none = returned none
parsed_condition (some kvs) = and_then (expr_from_response kvs) (λ e. returned (some e))

unfoldable pub binding_from_response : BindingResponse → Outcome Exception Binding
unfolding member_set
binding_from_response response = and_then (required response.role) (λ role.
    and_then (parsed_condition response.condition) (λ condition. returned (record {
      role = role;
      members = member_set (or_nil response.members);
      condition = condition;
    })))

abbrev condition_as_dict : Option Expr → Option (List (String × String))
condition_as_dict none = none
condition_as_dict (some e) = some (expr_as_dict e)

unfoldable pub binding_as_dict : Binding → BindingResponse
binding_as_dict b = record {
  role = some b.role;
  members = some b.members;
  condition = condition_as_dict b.condition;
}

-- frozenset(cls.Binding.from_response(b) for b in bindings)
unfoldable pub binding_set : List BindingResponse → Outcome Exception (List Binding)
binding_set [] = returned []
binding_set (r ∷ rs) =
    and_then (binding_from_response r) (λ b. and_then (binding_set rs) (λ bs. returned (add b bs)))

unfoldable pub policy_from_response : PolicyResponse → Outcome Exception Policy
unfolding binding_set
policy_from_response response = and_then (binding_set (or_nil response.bindings)) (λ bindings.
    and_then (required response.etag)
      (λ etag. returned (record { bindings = bindings; etag = etag; version = response.version })))

unfoldable pub binding_dicts : List Binding → List BindingResponse
binding_dicts [] = []
binding_dicts (b ∷ bs) = binding_as_dict b ∷ binding_dicts bs

unfoldable pub policy_as_dict : Policy → PolicyResponse
unfolding binding_dicts
policy_as_dict p = record {
  bindings = some (binding_dicts p.bindings);
  etag = some p.etag;
  version = p.version;
}

-- A list of texts, and a list of bindings, that stands for a set: nothing is in it twice.
abbrev pub IsTextSet : List String → Type 0
IsTextSet [] = Unit
IsTextSet (m ∷ ms) = (contains m ms ≡ false) × IsTextSet ms

abbrev pub IsBindingSet : List Binding → Type 0
IsBindingSet [] = Unit
IsBindingSet (b ∷ bs) = IsTextSet b.members × (has_equal b bs ≡ false) × IsBindingSet bs

expr-roundtrip : (e : Expr) → expr_from_response (expr_as_dict e) ≡ returned e
unfolding expr_from_response expr_as_dict
expr-roundtrip e = refl

member_set-eq : (ms : List String) → IsTextSet ms → member_set ms ≡ ms
unfolding member_set with_member
member_set-eq [] h = refl
member_set-eq (m ∷ ms) h = ground (arith, member_set-eq ms h.1)

condition-roundtrip : (c : Option Expr) → parsed_condition (condition_as_dict c) ≡ returned c
condition-roundtrip none = refl
condition-roundtrip (some e) = rw expr-roundtrip

binding-roundtrip :
    (b : Binding) → IsTextSet b.members → binding_from_response (binding_as_dict b) ≡ returned b
unfolding binding_from_response binding_as_dict
binding-roundtrip b h = rw (condition-roundtrip b.condition, member_set-eq b.members h)

bindings-roundtrip :
    (bs : List Binding) → IsBindingSet bs → binding_set (binding_dicts bs) ≡ returned bs
unfolding binding_set binding_dicts add
bindings-roundtrip [] h = refl
bindings-roundtrip (b ∷ bs) h = ground (arith, binding-roundtrip b h.0, bindings-roundtrip bs h.2)

-- A policy whose bindings, and the members of each, are without repetitions is what is parsed from its
-- JSON form.
pub policy-roundtrip :
    (p : Policy) → IsBindingSet p.bindings → policy_from_response (policy_as_dict p) ≡ returned p
unfolding policy_from_response policy_as_dict
policy-roundtrip p h = rw (bindings-roundtrip p.bindings h)

contains-member_set : (s : String) (ms : List String) → contains s (member_set ms) ≡ contains s ms
unfolding member_set
contains-member_set s [] = refl
contains-member_set s (m ∷ ms) =
    contains-with_member s m (member_set ms) ∙ ap (λ b. str_eq m s || b) (contains-member_set s ms)

abbrev with_member_set : Binding → Binding
with_member_set b = record b { members = member_set b.members }

binding-read :
    (b : Binding) → binding_from_response (binding_as_dict b) ≡ returned (with_member_set b)
unfolding binding_from_response binding_as_dict
binding-read b = rw (condition-roundtrip b.condition)

bindings-read :
    (b : Binding) (bs read : List Binding)
    → binding_set (binding_dicts bs) ≡ returned read
    → binding_set (binding_dicts (b ∷ bs)) ≡ returned (add (with_member_set b) read)
unfolding binding_set binding_dicts
bindings-read b bs read same = rw (binding-read b, same)

given-read :
    (b : Binding) (bs read : List Binding) (role : String) (condition : Option Expr)
    (member : String)
    → given role condition member read ≡ given role condition member bs
    → given role condition member (add (with_member_set b) read)
      ≡ given role condition member (b ∷ bs)
unfolding given is_for
given-read b bs read role condition member same =
    rw given-add (ground (arith, contains-member_set member b.members))

-- What is written out and read back gives what it gave, whatever the order and the repetitions.
pub given-binding_dicts :
    (bs : List Binding)
    → (read : List Binding) × (binding_set (binding_dicts bs) ≡ returned read)
      × ((role : String) (condition : Option Expr) (member : String)
          → given role condition member read ≡ given role condition member bs)
given-binding_dicts [] = ([], unfold binding_set binding_dicts in refl, λ r c m. refl)
given-binding_dicts (b ∷ bs) =
    let (read, same, gives_same) = given-binding_dicts bs in
    (
      add (with_member_set b) read,
      bindings-read b bs read same,
      λ r c m. given-read b bs read r c m (gives_same r c m),
    )

-- So for a policy: it is read back, and what is read gives the same.
pub policy-read :
    (p : Policy)
    → (bindings : List Binding) × (policy_from_response (policy_as_dict p)
        ≡ returned (record p { bindings = bindings }))
      × ((role : String) (condition : Option Expr) (member : String)
          → given role condition member bindings ≡ given role condition member p.bindings)
unfolding policy_from_response policy_as_dict
policy-read p =
    let (read, same, gives_same) = given-binding_dicts p.bindings in (read, rw same, gives_same)
