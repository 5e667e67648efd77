-- ===== src/Common/Json.antt =====
-- The JSON values that the clients send: Python's dicts, lists, texts, numbers and Booleans.
use psm_interop.Common.Tests.{str_eq, if◌then◌else◌}
use Prim.Native.Nat.{ℕ}
use Prim.Native.String.{String}
use mathlib.Core.Bool.{Bool}
use mathlib.Core.Option.{Option, none, some}

mutual
  pub data Json : Type 0 where
    bool : Bool → Json
    num : ℕ → Json
    str : String → Json
    arr : Items → Json
    obj : Fields → Json

  pub data Items : Type 0 where
    nil : Items
    cons : Json → Items → Items

  pub data Fields : Type 0 where
    end : Fields
    field : String → Json → Fields → Fields

-- `d.get(key)`; a key stands once in what the clients build.
unfoldable pub get_field : String → Fields → Option Json
get_field k end = none
get_field k (field j v fs) = let rest = get_field k fs in if str_eq j k then some v else rest

-- `{**d, key: value}` for a new key, under a test.
abbrev pub field_if : Bool → String → Json → Fields → Fields
field_if b k v fs = if b then field k v fs else fs

abbrev pub one : Json → Json
one v = arr (cons v nil)
