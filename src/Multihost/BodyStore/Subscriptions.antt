-- ===== src/Multihost/BodyStore/Subscriptions.antt =====
-- The push fan-out of runtime/library/multihost/bodystore.go: subscriptions, their budget and buffers.
pub mod Budget
use aggexp.Prelude.{
  ℕ, ◌+◌, Bool, true, false, not, ◌&&◌, ◌||◌, List, [], ◌∷◌, ◌++◌, Option, none, some, ltb, leb,
  ◌==◌, length, keep, if◌then◌else◌,
}
use aggexp.Text.{Bytes, str_eq}
use aggexp.Multihost.Ref.{User, Body, IdentityGate}
use aggexp.Multihost.BodyStore.{owner_of}

pub data BodyChangeType : Type 0 where
  body_added body_modified body_deleted : BodyChangeType

pub record BodyChange (Json : Type 0) : Type 0 where
  pub change_type : BodyChangeType
  pub namespace : Bytes
  pub name : Bytes
  pub body : Body Json

-- `pending` is the channel's buffer of `capacity` places, the oldest change first.
pub record Subscriber (Json : Type 0) : Type 0 where
  pub id : ℕ
  pub user : Bytes
  pub all : Bool
  pub capacity : ℕ
  pub pending : List (BodyChange Json)

-- `upstream_budget` 0 is unlimited; ids stay below 2^63.
pub record Fanout (Json : Type 0) : Type 0 where
  pub upstream_budget : ℕ
  pub subscribers : List (Subscriber Json)
  pub next_sub_id : ℕ

abbrev pub default_watch_buffer : ℕ
default_watch_buffer = 100

module _ {Json : Type 0} where
  unfoldable pub new_fanout : ℕ → Fanout Json
  new_fanout budget = record { upstream_budget = budget; subscribers = []; next_sub_id = 0 }

  abbrev pub opened : IdentityGate → Fanout Json → Option User → ℕ → Fanout Json
  opened gate f u buffer_size = record f {
    next_sub_id = f.next_sub_id + 1;
    subscribers =
        record {
          id = f.next_sub_id + 1;
          user = (owner_of gate u).0;
          all = (owner_of gate u).1;
          capacity = if leb buffer_size 0 then default_watch_buffer else buffer_size;
          pending = [];
        }
        ∷ f.subscribers;
  }

  -- `none` when the budget is used up.
  unfoldable pub watch_for : IdentityGate → Fanout Json → Option User → ℕ → Fanout Json × Option ℕ
  watch_for gate f u buffer_size =
      if ltb 0 f.upstream_budget && leb f.upstream_budget (length f.subscribers)
      then (f, none)
      else (opened gate f u buffer_size, some (f.next_sub_id + 1))

  unfoldable pub close : Fanout Json → ℕ → Fanout Json
  close f i = record f {
    subscribers = keep (λ (s : Subscriber Json). not (s.id == i)) f.subscribers;
  }

  -- Whether the filter on owners lets the change through.
  unfoldable pub wants : Subscriber Json → BodyChange Json → Bool
  wants s c = s.all || str_eq c.body.owner s.user

  -- A change that finds the buffer full is dropped.
  unfoldable pub offer : BodyChange Json → Subscriber Json → Subscriber Json
  offer c s =
      if wants s c && ltb (length s.pending) s.capacity
      then record s { pending = s.pending ++ c ∷ [] }
      else s

  unfoldable pub offer_all : BodyChange Json → List (Subscriber Json) → List (Subscriber Json)
  offer_all c [] = []
  offer_all c (s ∷ l) = offer c s ∷ offer_all c l

  unfoldable pub deliver : Fanout Json → BodyChange Json → Fanout Json
  deliver f c = record f { subscribers = offer_all c f.subscribers }

  abbrev pub rest_pending : List (BodyChange Json) → List (BodyChange Json)
  rest_pending [] = []
  rest_pending (c ∷ l) = l

  -- The reader of a subscription takes the oldest change.
  unfoldable pub take_from : ℕ → List (Subscriber Json) → List (Subscriber Json)
  take_from i [] = []
  take_from i (s ∷ l) =
      let rest = take_from i l in
      if s.id == i then record s { pending = rest_pending s.pending } ∷ rest else s ∷ rest
