-- ===== src/Tracking/Relay/Order.antt =====
-- Lists of relay events in which a terminal event is the last of its owner.
use anime_portable.Prelude.{◌<◌, All, All-append, Bool, true, List, [], ◌∷◌, ◌++◌, ◌≡◌}
use anime_portable.Playback.{is_terminal}
use anime_portable.Tracking.Relay.{RelayEvent}

abbrev pub item_is_terminal : RelayEvent → Bool
item_is_terminal item = is_terminal item.event.kind

-- If `x` is terminal, then `y` belongs to a later owner.
abbrev pub Before : RelayEvent → RelayEvent → Type 0
Before x y = item_is_terminal x ≡ true → x.owner < y.owner

-- After a terminal event come only events of later owners.
abbrev pub IsSettled : List RelayEvent → Type 0
IsSettled [] = Unit
IsSettled (x ∷ xs) = All (Before x) xs × IsSettled xs

pub IsSettled-snoc :
    (xs : List RelayEvent) (y : RelayEvent)
    → IsSettled xs
    → All (λ x. Before x y) xs
    → IsSettled (xs ++ y ∷ [])
IsSettled-snoc [] y s h = (tt, tt)
IsSettled-snoc (x ∷ xs) y s h =
    (All-append (Before x) xs (y ∷ []) s.0 (h.0, tt), IsSettled-snoc xs y s.1 h.1)

pub All-drop_one {κ} :
    (P : RelayEvent → Type κ) (xs : List RelayEvent) (y : RelayEvent) (zs : List RelayEvent)
    → All P (xs ++ y ∷ zs)
    → All P (xs ++ zs)
All-drop_one P [] y zs h = h.1
All-drop_one P (x ∷ xs) y zs h = (h.0, All-drop_one P xs y zs h.1)

pub IsSettled-drop_one :
    (xs : List RelayEvent) (y : RelayEvent) (zs : List RelayEvent)
    → IsSettled (xs ++ y ∷ zs)
    → IsSettled (xs ++ zs)
IsSettled-drop_one [] y zs h = h.1
IsSettled-drop_one (x ∷ xs) y zs h =
    (All-drop_one (Before x) xs y zs h.0, IsSettled-drop_one xs y zs h.1)

pub All-prefix {κ} :
    (P : RelayEvent → Type κ) (xs ys : List RelayEvent) → All P (xs ++ ys) → All P xs
All-prefix P [] ys h = tt
All-prefix P (x ∷ xs) ys h = (h.0, All-prefix P xs ys h.1)

pub IsSettled-prefix : (xs ys : List RelayEvent) → IsSettled (xs ++ ys) → IsSettled xs
IsSettled-prefix [] ys h = tt
IsSettled-prefix (x ∷ xs) ys h = (All-prefix (Before x) xs ys h.0, IsSettled-prefix xs ys h.1)
