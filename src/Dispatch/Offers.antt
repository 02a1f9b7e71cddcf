-- ===== src/Dispatch/Offers.antt =====
-- The store of offers (app_base/modules/ride/infra/offer_store.py), a Redis database with three
-- families of keys, each a function of the ride. A key with a time to live is there until its
-- moment; `now` is the moment of the call. Moments and spans are microseconds. A set is the list of
-- its members, each once. The key of an older
-- deployment, one driver in a string, is written by none of this code and left out.
use diddi_go_backend.Base.{
  ℕ, ◌+◌, Bool, true, false, Option, none, some, List, [], ◌∷◌, ◌++◌, if◌then◌else◌, ◌==◌, ltb,
  contains,
}

-- A key: its value, and the moment at which it expires.
pub record Key (A : Type 0) : Type 0 where
  pub value : A
  pub expires_at : ℕ

pub record OfferStore : Type 0 where
  pub offer_ttl : ℕ
  pub tried_ttl : ℕ
  pub waves : ℕ → Option (Key (List ℕ))
  pub tried : ℕ → Option (Key (List ℕ))
  pub claims : ℕ → Option (Key ℕ)

-- `SET`, and `DEL` where the value is none.
abbrev pub put : {A : Type 0} → ℕ → Option A → (ℕ → Option A) → ℕ → Option A
put k v f i = if i == k then v else f i

-- What a key holds at a moment.
abbrev pub live : {A : Type 0} → ℕ → Option (Key A) → Option A
live now none = none
live now (some k) = if ltb now k.expires_at then some k.value else none

abbrev pub members_of : Option (List ℕ) → List ℕ
members_of none = []
members_of (some xs) = xs

-- `current_offers`, `already_tried`
abbrev pub current_offers : (now ride_id : ℕ) → OfferStore → List ℕ
current_offers now ride_id st = members_of (live now (st.waves ride_id))

abbrev pub already_tried : (now ride_id : ℕ) → OfferStore → List ℕ
already_tried now ride_id st = members_of (live now (st.tried ride_id))

-- `SADD`
abbrev pub add_members : List ℕ → List ℕ → List ℕ
add_members s [] = s
add_members s (x ∷ xs) = add_members (if contains x s then s else s ++ x ∷ []) xs

-- `open_offers`
unfoldable pub open_offers : (now ride_id : ℕ) → List ℕ → OfferStore → OfferStore
open_offers now ride_id [] st = st
open_offers now ride_id (d ∷ ds) st = record st {
  waves =
      put ride_id
        (some (record { value = add_members [] (d ∷ ds); expires_at = now + st.offer_ttl }))
        st.waves;
  tried =
      put ride_id
        (some (record {
          value = add_members (already_tried now ride_id st) (d ∷ ds);
          expires_at = now + st.tried_ttl;
        }))
        st.tried;
}

-- `close_offer`
abbrev pub close_offer : ℕ → OfferStore → OfferStore
close_offer ride_id st = record st { waves = put ride_id none st.waves }

abbrev pub without : ℕ → List ℕ → List ℕ
without d [] = []
without d (x ∷ xs) = if x == d then without d xs else x ∷ without d xs

-- `SREM` keeps the time to live.
abbrev pub key_without : ℕ → Option (Key (List ℕ)) → Option (Key (List ℕ))
key_without d none = none
key_without d (some k) = some (record k { value = without d k.value })

abbrev pub is_nonempty : List ℕ → Bool
is_nonempty [] = false
is_nonempty (x ∷ xs) = true

-- `decline_offer`: whether another driver can still answer.
unfoldable pub decline_offer : (now ride_id driver_user_id : ℕ) → OfferStore → Bool × OfferStore
decline_offer now ride_id driver_user_id st =
    if is_nonempty (without driver_user_id (current_offers now ride_id st))
    then (
      true,
      record st { waves = put ride_id (key_without driver_user_id (st.waves ride_id)) st.waves },
    )
    else (false, close_offer ride_id st)

-- `claim`: `SET NX EX`
unfoldable pub claim : (now ride_id driver_user_id : ℕ) → OfferStore → Bool × OfferStore
claim now ride_id driver_user_id st = elim (live now (st.claims ride_id)) [
  | some holder ↦ (false, st)
  | none ↦ (
    true,
    record st {
      claims =
          put ride_id (some (record { value = driver_user_id; expires_at = now + st.tried_ttl }))
            st.claims;
    },
  )
]

-- `release_claim`, `clear`
abbrev pub release_claim : ℕ → OfferStore → OfferStore
release_claim ride_id st = record st { claims = put ride_id none st.claims }

unfoldable pub clear : ℕ → OfferStore → OfferStore
clear ride_id st = record st {
  waves = put ride_id none st.waves;
  tried = put ride_id none st.tried;
  claims = put ride_id none st.claims;
}
