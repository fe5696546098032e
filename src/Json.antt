-- ===== src/Json.antt =====
-- What `json.loads` gives: JSON values, with a number as its literal, and an object as its members.
pub mod Dumps
pub mod Characters
pub mod Unambiguous
use ai_account_payable_invoi.Prelude.{
  Bool, Option, none, some, ◌==◌, list_eq, nat_eq, if◌then◌else◌, [], ◌∷◌,
}
use ai_account_payable_invoi.Text.{Text}

mutual
  pub data Json : Type 0 where
    null : Json
    boolean : Bool → Json
    number : Text → Json
    string : Text → Json
    array : Items → Json
    object : Members → Json

  pub data Items : Type 0 where
    nil : Items
    cons : Json → Items → Items

  pub data Members : Type 0 where
    end : Members
    member : Text → Json → Members → Members

-- `members.get(key)`
unfoldable pub get_member : Text → Members → Option Json
get_member key end = none
get_member key (member k j ms) = if k == key then some j else get_member key ms

-- `value[key]` for a text: `none` stands for a KeyError or a TypeError.
unfoldable pub item_at : Text → Json → Option Json
item_at key (object ms) = get_member key ms
item_at key _ = none

-- `value[0]`: `none` stands for an IndexError, a KeyError or a TypeError. A text has a first
-- character.
unfoldable pub first_item : Json → Option Json
first_item (array (cons j js)) = some j
first_item (string (c ∷ t)) = some (string (c ∷ []))
first_item _ = none
