-- ===== src/Registry/Abstract/Histories.antt =====
-- registry.go refines the table of resources, owners and send states, call by call and over histories.
use flutter_pion_bridge.Prelude.{◌≡◌, refl, sym, ap, ◌∙◌, subst, String, List, [], ◌∷◌, get}
use flutter_pion_bridge.Registry.{Registry, new_registry}
use flutter_pion_bridge.Registry.Cascade.{IsConsistent}
use flutter_pion_bridge.Registry.Cleanup.Walk.{touch_total}
use flutter_pion_bridge.Registry.Reachable.{
  Step, registers, adopts, sends, stops, looks, touches, deletes, reaps, Reach, start, next,
  Reach-IsConsistent,
}
use flutter_pion_bridge.Registry.Abstract.{Table, view, Call, call_of, perform}
use flutter_pion_bridge.Registry.Abstract.View.{
  view-register, view-register_child, view-send, view-stop, view-look, view-OnlyStamps, view-delete,
  view-reap,
}

-- From consistent maps every call does to the table of resources, owners and send states what its
-- specification says, of which the lists of children, the stamps and the order of the maps are no
-- part: `Delete` and `Cleanup` take out the handles that they name and what those own.
pub view-Step :
    {r s : Registry} (st : Step r s) → IsConsistent r → view s ≡ perform (call_of st) (view r)
unfolding call_of
view-Step {r} (registers now h res fresh) v = view-register r now h res
view-Step {r} (adopts now h res p fresh root other) v = view-register_child r now h res p
view-Step {r} (sends h s) v = view-send r h s
view-Step {r} (stops h) v = view-stop r h
view-Step {r} (looks now h) v = unfold perform in view-look r now h
view-Step {r} (touches now h r' e) v =
    let (s, e', o) = touch_total now h r v in
    let same : s ≡ r' = cc in
    unfold perform in subst (λ x. view x ≡ view r) same (view-OnlyStamps r o)
view-Step {r} (deletes t h c e) v = view-delete r t h c e v
view-Step {r} (reaps t hs c e) v = view-reap r t hs c e v

-- The calls of a history, the last one first.
unfoldable pub calls_of : {r : Registry} → Reach r → List Call
calls_of start = []
calls_of (next path s) = call_of s ∷ calls_of path

unfoldable pub perform_all : List Call → Table → Table
perform_all [] t = t
perform_all (c ∷ cs) t = perform c (perform_all cs t)

view-Reach :
    {r : Registry} (path : Reach r) → view r ≡ perform_all (calls_of path) (view new_registry)
unfolding perform_all calls_of
view-Reach start = refl
view-Reach (next path s) =
    view-Step s (Reach-IsConsistent path) ∙ ap (perform (call_of s)) (view-Reach path)

-- Two histories of the same calls end in registries that give every handle the same resource, owner
-- and send state, at whatever times the calls are made and whatever the stamps and lists hold.
pub same_calls :
    {r s : Registry} (a : Reach r) (b : Reach s)
    → calls_of a ≡ calls_of b
    → (k : String)
    → (get r.resources k ≡ get s.resources k)
      × (get r.parent k ≡ get s.parent k)
      × (get r.dc_send_states k ≡ get s.dc_send_states k)
unfolding view
same_calls {r} {s} a b e k =
    let same =
      view-Reach a ∙ ap (λ cs. perform_all cs (view new_registry)) e ∙ sym (view-Reach b) in
    (ap (λ t. t.resource k) same, ap (λ t. t.owner_of k) same, ap (λ t. t.state k) same)
