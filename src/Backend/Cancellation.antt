-- ===== src/Backend/Cancellation.antt =====
-- backend/src/cancellation-registry.ts. A token is an address in a store of flags, since its holder and
-- the registry share it.
pub mod Supersede
pub mod Tests
use pine_framework.Prelude.{
  ℕ, List, [], ◌∷◌, ◌++◌, Option, none, some, Bool, true, false, String, string_eq, length, set,
  get_elem?,
}
use pine_framework.Prelude.JsMap.{JsMap}
use pine_framework.Prelude.JsMap

pub record CancellationRegistry : Type 0 where
  pub tokens : JsMap String ℕ
  -- `isCancelled` of every token ever made.
  pub flags : List Bool

abbrev pub new_registry : CancellationRegistry
new_registry = record { tokens = []; flags = [] }

-- `token.isCancelled`.
abbrev pub is_cancelled : CancellationRegistry → ℕ → Option Bool
is_cancelled r token = get_elem? r.flags token

abbrev pub flag_token : Option ℕ → List Bool → List Bool
flag_token none flags = flags
flag_token (some token) flags = set flags token true

unfoldable pub create : CancellationRegistry → String → CancellationRegistry × ℕ
create r id =
    let flags = flag_token (JsMap.get r.tokens id) r.flags in
    (
      record { tokens = JsMap.set r.tokens id (length flags); flags = flags ++ false ∷ [] },
      length flags,
    )

unfoldable pub get : CancellationRegistry → String → Option ℕ
get r id = JsMap.get r.tokens id

unfoldable pub cancel : CancellationRegistry → String → CancellationRegistry
cancel r id = record r { flags = flag_token (JsMap.get r.tokens id) r.flags }

unfoldable pub remove : CancellationRegistry → String → CancellationRegistry
remove r id = record r { tokens = JsMap.delete r.tokens id }
