-- ===== src/Registry/Cleanup.antt =====
-- `Cleanup` and `isLivePeerConnection` of registry.go. Whether pion reports a PeerConnection as
-- connected is an argument, as are the two readings of the clock. The sections under `r.mu` are
-- functions of their own, since other calls may run between them.
pub mod Walk
pub mod Sweep
pub mod Verdict
pub mod Alive
pub mod Same
pub mod Among
mod Tests
use flutter_pion_bridge.Prelude.{
  ℕ, zero, suc, ◌+◌, ◌-◌, ◌<◌, ◌≤◌, ◌≡◌, ◌≢◌, refl, sym, ap, ◌∙◌, subst, String, ◌==◌, Bool, true,
  false, not, ◌&&◌, ◌||◌, Option, none, some, List, [], ◌∷◌, ◌++◌, map, Map, empty, get, put,
  delete, keys, length, length-append, elem, erase, elem-append, elem-erase_ne, elem-erase_self,
  erase_none, elem-erase_none, erase-IsDistinct, nil_of_no_elem, IsDistinct, ltb, leb, ◌=ℕ◌, =ℕ_iff,
  if◌then◌else◌, arith, eq_iff, eq_refl, get-put, get-delete, get-empty, length-delete-le,
  length-delete-lt, map_laws, Bool-cases, Option-cases, ◌⊎◌, inl, inr, ◌↔◌, All, All-append,
}
use flutter_pion_bridge.Trace.{PionTrace, release_dc}
use flutter_pion_bridge.Registry.{
  Resource, peer_connection, data_channel, opaque, Registry, new_registry, or_nil, kids, ◌>>=◌,
  second, touch_stamp, register_dc_send_state, lookup_dc_send_state, remove_dc_send_state, register,
  register_child, lookup, chain, touch_all, touch, Collected, as_closer, as_state, unlink, detach,
  collect_all, drop_kids, collect_locked, fuel, collect, Deleted, not_found, out_of_fuel, gone,
  delete_handle,
}

-- `now-st.Load() <= maxAge` the other way round, over the integers.
unfoldable pub is_expired : ℕ → ℕ → Registry → String → Bool
is_expired now max_age r h = elim (get r.last_seen h) [
  | none ↦ false
  | some st ↦ ltb (st + max_age) now
]

-- The walk to the root, with fuel.
unfoldable pub root : ℕ → Map String → String → Option String
root zero m h = none
root (suc f) m h = elim (get m h) [ none ↦ some h | some p ↦ root f m p ]

-- The expired handles among `hs`, each with the resource of its root.
unfoldable pub scan_keys : ℕ → ℕ → Registry → List String → Option (List (String × Option Resource))
scan_keys now max_age r [] = some []
scan_keys now max_age r (h ∷ hs) =
    let skip = scan_keys now max_age r hs in
    let take = root (suc (length r.parent)) r.parent h >>= λ top.
    skip >>= λ rest. some ((h, get r.resources top) ∷ rest) in
    if is_expired now max_age r h then take else skip

unfoldable pub scan : ℕ → ℕ → Registry → Option (List (String × Option Resource))
scan now max_age r = scan_keys now max_age r (keys r.last_seen)

unfoldable pub is_live_peer_connection : (ℕ → Bool) → Option Resource → Bool
is_live_peer_connection connected none = false
is_live_peer_connection connected (some (peer_connection pc)) = connected pc
is_live_peer_connection connected (some _) = false

-- The handles whose root is live, or is not.
unfoldable pub select : (ℕ → Bool) → Bool → List (String × Option Resource) → List String
select connected live [] = []
select connected live ((h, top) ∷ found) =
    let rest = select connected live found in
    if is_live_peer_connection connected top
    then (if live then h ∷ rest else rest)
    else if live
    then rest
    else h ∷ rest

unfoldable pub reap : PionTrace → Registry → List String → Option Collected
reap t r hs = collect_all (collect_locked (fuel r)) hs (collect t r)

-- What other calls do to the registry while `Cleanup` does not hold `r.mu`: before it reaps, and before it
-- touches a handle.
pub record Meanwhile : Type 0 where
  pub before_reap : Registry → Registry
  pub before_touch : String → Registry → Registry

unfoldable pub touch_each : Meanwhile → ℕ → List String → Registry → Option Registry
touch_each other now [] r = some r
touch_each other now (h ∷ hs) r = touch now h (other.before_touch h r) >>= touch_each other now hs

-- With nothing expired `Cleanup` returns early, which comes to the same.
unfoldable pub cleanup_among :
    Meanwhile → (ℕ → Bool) → ℕ → ℕ → ℕ → PionTrace → Registry → Option Collected
cleanup_among other connected now later max_age t r = scan now max_age r >>= λ found.
    reap t (other.before_reap r) (select connected false found) >>= λ c.
    touch_each other later (select connected true found) c.registry >>= λ r'.
    some (record c { registry = r' })

abbrev pub undisturbed : Meanwhile
undisturbed = record { before_reap = λ r. r; before_touch = λ h r. r }

-- A run with no other call in between.
unfoldable pub cleanup : (ℕ → Bool) → ℕ → ℕ → ℕ → PionTrace → Registry → Option Collected
cleanup connected now later max_age t r = cleanup_among undisturbed connected now later max_age t r
