-- ===== src/Backend/Cancellation/Tests.antt =====
-- Two runs of one name.
use pine_framework.Prelude.{◌≡◌, refl, [], ◌∷◌, none, some, true, false, string_eq, arith}
use pine_framework.Prelude.JsMap.{JsMap, Distinct}
use pine_framework.Prelude.JsMap
use pine_framework.Backend.Cancellation.{
  CancellationRegistry, is_cancelled, create, get, cancel, remove,
}
use pine_framework.Backend.Cancellation.Supersede

abbrev running : CancellationRegistry
running = record { tokens = ("rsi", 0) ∷ ("ema", 1) ∷ []; flags = false ∷ false ∷ [] }

create_example :
    (get (create running "rsi").0 "rsi" ≡ some (create running "rsi").1)
    × (is_cancelled (create running "rsi").0 (create running "rsi").1 ≡ some false)
    × (is_cancelled (create running "rsi").0 0 ≡ some true)
unfolding JsMap.get
create_example = Supersede.create_lem running "rsi" 0 0 refl (omega arith) (omega arith)

cancel-remove_example :
    let first = (create running "rsi").0 in
    let (second, b) = create first "rsi" in
    (get (remove second "rsi") "rsi" ≡ none)
    × (is_cancelled (cancel (remove second "rsi") "rsi") b ≡ some false)
unfolding JsMap.has
cancel-remove_example = Supersede.cancel-remove running "rsi" (refl, (refl, tt))
