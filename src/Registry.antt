-- ===== src/Registry.antt =====
-- go/internal/pionserver/registry.go: the handle map that every session shares. Each function below
-- is one critical section of `r.mu`, or the part of a method outside of it. Times are nanoseconds
-- and an argument; the handle that `generateHandle` draws is an argument too.

pub mod Termination
pub mod Links
pub mod Removal
pub mod Cascade
pub mod Removed
pub mod Cleanup
pub mod Reachable
pub mod Abstract
mod Orphans
mod Tests
use flutter_pion_bridge.Prelude.{
  ℕ, zero, suc, ◌+◌, ◌*◌, ◌^◌, String, ◌==◌, Bool, true, false, Option, none, some, List, [], ◌∷◌,
  ◌++◌, Map, empty, get, put, delete, length, elem, erase, ltb, leb, if◌then◌else◌,
}
use flutter_pion_bridge.Trace.{PionTrace, release_dc}

-- `interface{}`: a pion PeerConnection or DataChannel, by identity, or a value of another type.
pub data Resource : Type 0 where
  peer_connection data_channel opaque : ℕ → Resource

-- Send states are pointers.
pub record Registry : Type 0 where
  pub resources : Map Resource
  pub parent : Map String
  pub children : Map (List String)
  pub dc_send_states : Map ℕ
  pub last_seen : Map ℕ

abbrev pub new_registry : Registry
new_registry = record {
  resources = empty;
  parent = empty;
  children = empty;
  dc_send_states = empty;
  last_seen = empty;
}

-- `r.children[handle]`: a missing entry reads as nil.
abbrev pub or_nil : Option (List String) → List String
or_nil none = []
or_nil (some ks) = ks

abbrev pub kids : Registry → String → List String
kids r h = or_nil (get r.children h)

infixl 5 ◌>>=◌
abbrev pub ◌>>=◌ : {A B : Type 0} → Option A → (A → Option B) → Option B
none >>= f = none
some a >>= f = f a

abbrev pub second : ℕ
second = 10 ^ 9

-- A missing stamp is skipped, as is one that is less than a second old.
unfoldable pub touch_stamp : ℕ → String → Registry → Registry
touch_stamp now h r = elim (get r.last_seen h) [
  | none ↦ r
  | some st ↦ if ltb (st + second) now then record r { last_seen = put r.last_seen h now } else r
]

unfoldable pub register_dc_send_state : String → ℕ → Registry → Bool × Registry
register_dc_send_state handle state r = elim (get r.dc_send_states handle) [
  | some _ ↦ (false, r)
  | none ↦ (true, record r { dc_send_states = put r.dc_send_states handle state })
]

unfoldable pub lookup_dc_send_state : String → Registry → Option ℕ
lookup_dc_send_state handle r = get r.dc_send_states handle

unfoldable pub remove_dc_send_state : String → Registry → Option ℕ × Registry
remove_dc_send_state handle r = elim (get r.dc_send_states handle) [
  | none ↦ (none, r)
  | some s ↦ (some s, record r { dc_send_states = delete r.dc_send_states handle })
]

unfoldable pub register : ℕ → String → Resource → Registry → Registry
register now handle res r = record r {
  resources = put r.resources handle res;
  last_seen = put r.last_seen handle now;
}

unfoldable pub register_child : ℕ → String → Resource → String → Registry → Registry
register_child now handle res parent_handle r = record r {
  resources = put r.resources handle res;
  parent = put r.parent handle parent_handle;
  children = put r.children parent_handle (kids r parent_handle ++ handle ∷ []);
  last_seen = put r.last_seen handle now;
}

unfoldable pub lookup : ℕ → String → Registry → Option Resource × Registry
unfolding touch_stamp
lookup now handle r = elim (get r.resources handle) [
  | none ↦ (none, r)
  | some res ↦ (some res, touch_stamp now handle r)
]

-- The handles whose stamps `Touch` refreshes, with fuel for the walk up the parents.
unfoldable pub chain : ℕ → Map String → String → Option (List String)
chain zero m h = none
chain (suc f) m h = elim (get m h) [
  | none ↦ some (h ∷ [])
  | some p ↦ chain f m p >>= λ up. some (h ∷ up)
]

unfoldable pub touch_all : ℕ → List String → Registry → Registry
touch_all now [] r = r
touch_all now (h ∷ hs) r = touch_all now hs (touch_stamp now h r)

unfoldable pub touch : ℕ → String → Registry → Option Registry
unfolding chain touch_all touch_stamp
touch now handle r = elim (get r.last_seen handle) [
  | none ↦ some r
  | some _ ↦ chain (suc (length r.parent)) r.parent handle >>= λ hs. some (touch_all now hs r)
]

-- What `collectLocked` gathers for its caller, with the maps and the trace that it changes.
pub record Collected : Type 0 where
  pub registry : Registry
  pub trace : PionTrace
  pub closers : List Resource
  pub states : List ℕ

-- `res.(io.Closer)`: both kinds of pion resource have a `Close`.
abbrev pub as_closer : Resource → List Resource
as_closer (opaque n) = []
as_closer res = res ∷ []

abbrev pub as_state : Option ℕ → List ℕ
as_state none = []
as_state (some s) = s ∷ []

-- The parent's list loses its first entry for the handle.
unfoldable pub unlink : String → Registry → Registry
unlink handle r = elim (get r.parent handle) [
  | none ↦ r
  | some p ↦ record r {
    children =
        if elem handle (kids r p) then put r.children p (erase handle (kids r p)) else r.children;
    parent = delete r.parent handle;
  }
]

-- The part of `collectLocked` below the cascade.
unfoldable pub detach : String → Resource → Collected → Collected
detach handle res c =
    let r = unlink handle (remove_dc_send_state handle c.registry).1 in
    record {
      registry = record r {
        resources = delete r.resources handle;
        last_seen = delete r.last_seen handle;
      };
      trace = release_dc c.trace handle;
      closers = c.closers ++ as_closer res;
      states = c.states ++ as_state (remove_dc_send_state handle c.registry).0;
    }

unfoldable pub collect_all :
    (String → Collected → Option Collected) → List String → Collected → Option Collected
collect_all collect [] c = some c
collect_all collect (h ∷ hs) c = collect h c >>= collect_all collect hs

abbrev pub drop_kids : String → Collected → Collected
drop_kids handle c = record c {
  registry = record c.registry { children = delete c.registry.children handle };
}

unfoldable pub collect_locked : ℕ → String → Collected → Option Collected
collect_locked zero handle c = none
collect_locked (suc f) handle c = elim (get c.registry.resources handle) [
  | none ↦ some c
  | some res ↦ elim (get c.registry.children handle) [
    | none ↦ some (detach handle res c)
    | some ks ↦
        collect_all (collect_locked f) ks (drop_kids handle c) >>= λ c'. some (detach handle res c')
  ]
]

-- A level of the cascade takes an entry out of `children`, so this is enough.
abbrev pub fuel : Registry → ℕ
fuel r = suc (length r.children)

abbrev pub collect : PionTrace → Registry → Collected
collect t r = record { registry = r; trace = t; closers = []; states = [] }

pub data Deleted : Type 0 where
  not_found out_of_fuel : Deleted
  gone : Collected → Deleted

abbrev gone_or_stuck : Option Collected → Deleted
gone_or_stuck none = out_of_fuel
gone_or_stuck (some c) = gone c

-- `Delete` up to `closeCollected`, which runs after the lock is released.
unfoldable pub delete_handle : PionTrace → String → Registry → Deleted
delete_handle t handle r = elim (get r.resources handle) [
  | none ↦ not_found
  | some _ ↦ gone_or_stuck (collect_locked (fuel r) handle (collect t r))
]
