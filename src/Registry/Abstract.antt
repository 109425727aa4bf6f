-- ===== src/Registry/Abstract.antt =====
-- What registry.go promises its callers: a handle has at most one resource, owner and send state.
-- The lists of children, the stamps and the order of the maps are left out.
pub mod View
pub mod Histories
use mathlib.Core.Path.{fun_ext}
use flutter_pion_bridge.Prelude.{
  ℕ, ◌≡◌, ◌≢◌, refl, sym, ap, ◌∙◌, subst, String, ◌==◌, Bool, true, false, ◌&&◌, ◌||◌, Option, none,
  some, List, [], ◌∷◌, ◌++◌, Map, get, put, delete, length, elem, if◌then◌else◌, arith, eq_iff,
  get-put, get-delete, Bool-cases, Option-cases, inl, inr,
}
use flutter_pion_bridge.Trace.{PionTrace}
use flutter_pion_bridge.Registry.{
  Resource, Registry, new_registry, register_dc_send_state, remove_dc_send_state, register,
  register_child, lookup, touch, Collected, collect, gone, delete_handle,
}
use flutter_pion_bridge.Registry.Links.{Removes}
use flutter_pion_bridge.Registry.Cascade.{IsConsistent}
use flutter_pion_bridge.Registry.Removed.{falls_with, delete_handle-Removes}
use flutter_pion_bridge.Registry.Cleanup.{reap}
use flutter_pion_bridge.Registry.Cleanup.Sweep.{falls, collect_list}
use flutter_pion_bridge.Registry.Cleanup.Walk.{OnlyStamps, touch_stamp-OnlyStamps, touch_total}
use flutter_pion_bridge.Registry.Reachable.{
  IsFresh, Step, registers, adopts, sends, stops, looks, touches, deletes, reaps, Reach, start,
  next, Reach-IsConsistent,
}

pub record Table : Type 0 where
  pub resource : String → Option Resource
  pub owner_of : String → Option String
  pub state : String → Option ℕ

unfoldable pub view : Registry → Table
view r = record {
  resource = get r.resources;
  owner_of = get r.parent;
  state = get r.dc_send_states;
}

unfoldable pub at_handle :
    {A : Type 0} → (String → Option A) → String → Option A → String → Option A
at_handle f h a k = if h == k then a else f k

unfoldable pub but : {A : Type 0} → (String → Bool) → (String → Option A) → String → Option A
but lost f k = if lost k then none else f k

abbrev pub drop : (String → Bool) → Table → Table
drop lost t = record {
  resource = but lost t.resource;
  owner_of = but lost t.owner_of;
  state = but lost t.state;
}

abbrev pub owned_by : (String → Bool) → Option String → Bool
owned_by named none = false
owned_by named (some p) = named p

abbrev pub is_there : Option Resource → Bool
is_there none = false
is_there (some _) = true

-- The named handles that are there, and those that they own.
unfoldable pub sweep : Table → (String → Bool) → String → Bool
sweep t named k =
    is_there (t.resource k)
    && (named k || owned_by (λ p. named p && is_there (t.resource p)) (t.owner_of k))

-- The calls, with the arguments that matter to the table.
pub data Call : Type 0 where
  to_register : String → Resource → Call
  to_register_child : String → Resource → String → Call
  to_send : String → ℕ → Call
  to_stop to_delete : String → Call
  to_look : Call
  to_reap : List String → Call

unfoldable pub call_of : {r s : Registry} → Step r s → Call
call_of (registers now h res fresh) = to_register h res
call_of (adopts now h res p fresh root other) = to_register_child h res p
call_of (sends h s) = to_send h s
call_of (stops h) = to_stop h
call_of (looks now h) = to_look
call_of (touches now h r' e) = to_look
call_of (deletes t h c e) = to_delete h
call_of (reaps t hs c e) = to_reap hs

abbrev kept : Option ℕ → ℕ → Option ℕ
kept none s = some s
kept (some old) s = some old

unfoldable pub perform : Call → Table → Table
perform (to_register h res) t = record t { resource = at_handle t.resource h (some res) }
perform (to_register_child h res p) t = record t {
  resource = at_handle t.resource h (some res);
  owner_of = at_handle t.owner_of h (some p);
}
perform (to_send h s) t = record t { state = at_handle t.state h (kept (t.state h) s) }
perform (to_stop h) t = record t { state = at_handle t.state h none }
perform (to_delete h) t = drop (sweep t (λ j. h == j)) t
perform to_look t = t
perform (to_reap hs) t = drop (sweep t (λ j. elem j hs)) t
