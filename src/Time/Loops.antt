-- ===== src/Time/Loops.antt =====
-- `LoopItem` of time/KaTime.cpp and `LoopEventList` of time/TimerQueue.cpp. An item is known by its
-- address; its function and argument are opaque, so a run is the argument that each was called with.
use ka_im.Prelude.{ℕ, ◌≡◌, refl, false, List, [], ◌∷◌, ◌++◌, if◌then◌else◌, ◌==◌, arith, ap}

pub record LoopItem : Type 0 where
  pub address : ℕ
  pub function : ℕ
  pub user_data : ℕ

-- `Run`: the function that is called and its argument.
abbrev pub run : LoopItem → ℕ × ℕ
run i = (i.function, i.user_data)

unfoldable pub add_loop_event : ℕ → ℕ → ℕ → List LoopItem → List LoopItem
add_loop_event address function user_data items =
    items ++ record { address = address; function = function; user_data = user_data } ∷ []

unfoldable pub remove_loop_event : ℕ → List LoopItem → List LoopItem
remove_loop_event address [] = []
remove_loop_event address (i ∷ is) =
    if i.address == address then is else i ∷ remove_loop_event address is

unfoldable pub do_loop_event : List LoopItem → List (ℕ × ℕ)
do_loop_event [] = []
do_loop_event (i ∷ is) = run i ∷ do_loop_event is

abbrev pub Unknown : ℕ → List LoopItem → Type 0
Unknown address [] = Unit {0}
Unknown address (i ∷ is) = (i.address == address ≡ false) × Unknown address is

-- An item that is added under a new address runs after all the others, and removing it again gives
-- the items that were there.
pub add_remove :
    (address function user_data : ℕ) (items : List LoopItem)
    → Unknown address items
    → (do_loop_event (add_loop_event address function user_data items)
        ≡ do_loop_event items ++ (function, user_data) ∷ [])
      × (remove_loop_event address (add_loop_event address function user_data items) ≡ items)
unfolding add_loop_event remove_loop_event do_loop_event
add_remove address function user_data [] u = (refl, ground arith)
add_remove address function user_data (i ∷ is) u =
    let ih = add_remove address function user_data is u.1 in
    (ap (◌∷◌ (run i)) ih.0, ground (arith, ih.1))
