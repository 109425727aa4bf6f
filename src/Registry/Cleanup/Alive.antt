-- ===== src/Registry/Cleanup/Alive.antt =====
-- `Touch` of registry.go against `Cleanup`: a busy DataChannel keeps its PeerConnection.
use flutter_pion_bridge.Prelude.{
  ℕ, ◌+◌, ◌≤◌, ◌≡◌, ◌≢◌, String, false, Option, none, some, [], ◌∷◌, get, arith, eq_iff, get-put,
  Option-cases, inl, inr,
}
use flutter_pion_bridge.Registry.{Registry, second, touch_stamp, touch_all, touch}
use flutter_pion_bridge.Registry.Cascade.{IsConsistent}
use flutter_pion_bridge.Registry.Cleanup.{is_expired}
use flutter_pion_bridge.Registry.Cleanup.Walk.{owner, line, chain-line}

abbrev IsRecent : ℕ → Registry → String → Type 0
IsRecent now r k = (st : ℕ) → get r.last_seen k ≡ some st → now ≤ st + second

touch_stamp-IsRecent : (now : ℕ) (h : String) (r : Registry) → IsRecent now (touch_stamp now h r) h
unfolding touch_stamp
touch_stamp-IsRecent now h r st e = ground (arith, get-put r.last_seen h h now, eq_iff h h)

touch_stamp-keeps :
    (now : ℕ) (h k : String) (r : Registry)
    → IsRecent now r k
    → IsRecent now (touch_stamp now h r) k
unfolding touch_stamp
touch_stamp-keeps now h k r recent st e = ground (arith, get-put r.last_seen h k now, recent st)

not_expired :
    (now later max_age : ℕ) (r : Registry) (k : String)
    → IsRecent now r k
    → later + second ≤ now + max_age
    → is_expired later max_age r k ≡ false
unfolding is_expired
not_expired now later max_age r k recent soon = elim (Option-cases (get r.last_seen k)) [
  | inl e ↦ rw (e, is_expired)
  | inr (st, e) ↦ rw (e, is_expired) (ground (arith, recent st e))
]

line-IsRecent :
    (now : ℕ) (h : String) (r : Registry) (up : Option String)
    → let r' = touch_all now (elim up [ none ↦ h ∷ [] | some p ↦ h ∷ p ∷ [] ]) r in
      IsRecent now r' h × IsRecent now r' (elim up [ none ↦ h | some p ↦ p ])
unfolding touch_all
line-IsRecent now h r none = (touch_stamp-IsRecent now h r, touch_stamp-IsRecent now h r)
line-IsRecent now h r (some p) = (
  touch_stamp-keeps now p h (touch_stamp now h r) (touch_stamp-IsRecent now h r),
  touch_stamp-IsRecent now p (touch_stamp now h r),
)

-- After `Touch` of a handle that has a stamp, neither the handle nor the PeerConnection that owns it
-- is expired for a sweep that reads the clock at most the maximal age, less one second, later.
pub touch_keeps_alive :
    (now later max_age : ℕ) (h : String) (r : Registry)
    → IsConsistent r
    → get r.last_seen h ≢ none
    → later + second ≤ now + max_age
    → (r' : Registry) × (touch now h r ≡ some r')
      × (is_expired later max_age r' h ≡ false)
      × (is_expired later max_age r' (owner r h) ≡ false)
unfolding touch
touch_keeps_alive now later max_age h r v here soon = elim (Option-cases (get r.last_seen h)) [
  | inl e ↦ absurd (here e)
  | inr (st, e) ↦
      let r' = touch_all now (line r h) r in
      let (self, up) = line-IsRecent now h r (get r.parent h) in
      (
        r',
        rw (e, touch) (rw (chain-line r v h)),
        not_expired now later max_age r' h self soon,
        not_expired now later max_age r' (owner r h) up soon,
      )
]
