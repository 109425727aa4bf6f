-- ===== src/Registry/Removal.antt =====
-- What a call of `collectLocked` in registry.go takes out, and for whom.
use flutter_pion_bridge.Prelude.{
  ℕ, ◌≡◌, refl, sym, ap, ◌∙◌, String, Bool, false, Option, none, some, List, [], ◌∷◌, ◌++◌, get,
  elem, elem-append, IsDistinct, arith, All,
}
use mathlib.Core.List.{append_assoc, append-nil}
use flutter_pion_bridge.Trace.{PionTrace, release_dc}
use flutter_pion_bridge.Registry.{
  Resource, Registry, kids, remove_dc_send_state, Collected, as_closer, as_state, detach,
}
use flutter_pion_bridge.Registry.Links.{IsLinked, Removes, detach-Removes, detach-once}

abbrev pub closer_of : Option Resource → List Resource
closer_of none = []
closer_of (some res) = as_closer res

unfoldable pub closers_of : Registry → List String → List Resource
closers_of r [] = []
closers_of r (k ∷ ks) = closer_of (get r.resources k) ++ closers_of r ks

unfoldable pub states_of : Registry → List String → List ℕ
states_of r [] = []
states_of r (k ∷ ks) = as_state (get r.dc_send_states k) ++ states_of r ks

unfoldable pub release_all : PionTrace → List String → PionTrace
release_all t [] = t
release_all t (k ∷ ks) = release_all (release_dc t k) ks

-- `c'` is `c` with the handles of `names` taken out of the maps, their resources and send states
-- handed over in that order, and their trace slots released.
pub record Took (names : List String) (c c' : Collected) : Type 0 where
  pub removes : Removes (λ k. elem k names) c.registry c'.registry
  pub once : (p : String) → IsDistinct (kids c'.registry p)
  pub closers : c'.closers ≡ c.closers ++ closers_of c.registry names
  pub states : c'.states ≡ c.states ++ states_of c.registry names
  pub trace : c'.trace ≡ release_all c.trace names

abbrev pub Apart : List String → List String → Type 0
Apart ns ms = All (λ m. elem m ns ≡ false) ms

module _ {gone : String → Bool} {r r' : Registry} (m : Removes gone r r') where
  pub Removes-IsLinked : ((p : String) → IsDistinct (kids r' p)) → IsLinked r → IsLinked r'
  Removes-IsLinked once l = record {
    sound = λ p k e. ground (arith, m.listed p k, m.parent k, l.sound p k);
    once = once;
  }

  closers_of-Removes :
      (ks : List String) → All (λ k. gone k ≡ false) ks → closers_of r' ks ≡ closers_of r ks
  unfolding closers_of
  closers_of-Removes [] a = refl
  closers_of-Removes (k ∷ ks) a = rw (m.resources k, a.0, closers_of-Removes ks a.1)

  states_of-Removes :
      (ks : List String) → All (λ k. gone k ≡ false) ks → states_of r' ks ≡ states_of r ks
  unfolding states_of
  states_of-Removes [] a = refl
  states_of-Removes (k ∷ ks) a = rw (m.states k, a.0, states_of-Removes ks a.1)

module _ (r : Registry) where
  closers_of-append :
      (ks js : List String) → closers_of r (ks ++ js) ≡ closers_of r ks ++ closers_of r js
  unfolding closers_of
  closers_of-append [] js = refl
  closers_of-append (k ∷ ks) js =
      rw (closers_of-append ks js)
        (sym (append_assoc (closer_of (get r.resources k)) (closers_of r ks) (closers_of r js)))

  states_of-append :
      (ks js : List String) → states_of r (ks ++ js) ≡ states_of r ks ++ states_of r js
  unfolding states_of
  states_of-append [] js = refl
  states_of-append (k ∷ ks) js =
      rw (states_of-append ks js)
        (sym (append_assoc (as_state (get r.dc_send_states k)) (states_of r ks) (states_of r js)))

release_all-append :
    (t : PionTrace) (ks js : List String)
    → release_all t (ks ++ js) ≡ release_all (release_all t ks) js
unfolding release_all
release_all-append t [] js = refl
release_all-append t (k ∷ ks) js = release_all-append (release_dc t k) ks js

pub Took-append :
    {ns ms : List String} {c c' c'' : Collected}
    → Apart ns ms
    → Took ns c c'
    → Took ms c' c''
    → Took (ns ++ ms) c c''
Took-append {ns} {ms} {c} {c'} {c''} apart a b = record {
  removes = record {
    resources =
        λ k. ground (arith, elem-append k ns ms, a.removes.resources k, b.removes.resources k);
    last_seen =
        λ k. ground (arith, elem-append k ns ms, a.removes.last_seen k, b.removes.last_seen k);
    states = λ k. ground (arith, elem-append k ns ms, a.removes.states k, b.removes.states k);
    parent = λ k. ground (arith, elem-append k ns ms, a.removes.parent k, b.removes.parent k);
    listed = λ p k. ground (arith, elem-append k ns ms, a.removes.listed p k, b.removes.listed p k);
  };
  once = b.once;
  closers =
      b.closers
      ∙ ap (λ z. c'.closers ++ z) (closers_of-Removes a.removes ms apart)
      ∙ ap (λ z. z ++ closers_of c.registry ms) a.closers
      ∙ append_assoc c.closers (closers_of c.registry ns) (closers_of c.registry ms)
      ∙ ap (λ z. c.closers ++ z) (sym (closers_of-append c.registry ns ms));
  states =
      b.states
      ∙ ap (λ z. c'.states ++ z) (states_of-Removes a.removes ms apart)
      ∙ ap (λ z. z ++ states_of c.registry ms) a.states
      ∙ append_assoc c.states (states_of c.registry ns) (states_of c.registry ms)
      ∙ ap (λ z. c.states ++ z) (sym (states_of-append c.registry ns ms));
  trace = b.trace ∙ ap (λ t. release_all t ms) a.trace ∙ sym (release_all-append c.trace ns ms);
}

removed_state : (h : String) (r : Registry) → (remove_dc_send_state h r).0 ≡ get r.dc_send_states h
unfolding remove_dc_send_state
removed_state h r = ground arith

pub detach-Took :
    (h : String) (res : Resource) (c : Collected)
    → IsLinked c.registry
    → get c.registry.resources h ≡ some res
    → Took (h ∷ []) c (detach h res c)
unfolding elem closers_of states_of release_all
detach-Took h res c l e =
    let m = detach-Removes h res c l in
    record {
      removes = record {
        resources = λ k. ground (arith, m.resources k);
        last_seen = λ k. ground (arith, m.last_seen k);
        states = λ k. ground (arith, m.states k);
        parent = λ k. ground (arith, m.parent k);
        listed = λ p k. ground (arith, m.listed p k);
      };
      once = detach-once h res c l;
      closers = rw (e, append-nil) (unfold detach in refl);
      states =
          rw append-nil
            (unfold detach in ap (λ z. c.states ++ as_state z) (removed_state h c.registry));
      trace = unfold detach in refl;
    }
