-- ===== src/Handler/Profiles.antt =====
-- The cache of profiles of go/internal/pionserver/handler.go.
use flutter_pion_bridge.Prelude.{
  ◌≡◌, String, Option, none, some, get, arith, get-put, eq_iff, Option-cases, inl, inr, eq_refl,
}
use flutter_pion_bridge.Types.{Fields}
use flutter_pion_bridge.Result.{Result, failed, ok}
use flutter_pion_bridge.Handler.{
  Env, Handler, ApiProfile, ProfileError, build_profile, add_profile, keep_built, profile_for,
}

module _ {S Api : Type 0} (env : Env S Api) where
  hit :
      (se me : Option Fields) (h : Handler Api) (key : String) (p : ApiProfile Api)
      → env.marshal se me ≡ ok key
      → get h.profiles key ≡ some p
      → profile_for env se me h ≡ (ok p, h)
  unfolding profile_for
  hit se me h key p m e = ground arith

  fresh :
      (key : String) (r : Result ProfileError (ApiProfile Api)) (h : Handler Api)
      (p : ApiProfile Api)
      → get h.profiles key ≡ none
      → (keep_built env key r h).0 ≡ ok p
      → get (keep_built env key r h).1.profiles key ≡ some p
  unfolding keep_built add_profile
  fresh key (failed x) h p n e = absurd (ground arith)
  fresh key (ok b) h p n e = ground (arith, get-put h.profiles key key p, eq_refl key)

  found :
      (se me : Option Fields) (h : Handler Api) (key : String) (p : ApiProfile Api)
      → env.marshal se me ≡ ok key
      → (profile_for env se me h).0 ≡ ok p
      → get (profile_for env se me h).1.profiles key ≡ some p
  unfolding profile_for add_profile
  found se me h key p m e = elim (Option-cases (get h.profiles key)) [
    | inl q ↦ ground (arith, fresh key (build_profile env se me) h p q)
    | inr (old, q) ↦ ground arith
  ]

  add_profile-keeps :
      (key k : String) (p q : ApiProfile Api) (h : Handler Api)
      → get h.profiles k ≡ some q
      → get (add_profile env key p h).1.profiles k ≡ some q
  unfolding add_profile
  add_profile-keeps key k p q h e = elim (Option-cases (get h.profiles key)) [
    | inl n ↦ ground (arith, get-put h.profiles key k p, eq_iff key k)
    | inr (old, n) ↦ ground arith
  ]

  built-keeps :
      (key k : String) (q : ApiProfile Api) (r : Result ProfileError (ApiProfile Api))
      (h : Handler Api)
      → get h.profiles k ≡ some q
      → get (keep_built env key r h).1.profiles k ≡ some q
  unfolding keep_built
  built-keeps key k q (failed x) h e = e
  built-keeps key k q (ok p) h e = add_profile-keeps key k p q h e

  keeps :
      (se me : Option Fields) (h : Handler Api) (key k : String) (q : ApiProfile Api)
      → env.marshal se me ≡ ok key
      → get h.profiles k ≡ some q
      → get (profile_for env se me h).1.profiles k ≡ some q
  unfolding profile_for
  keeps se me h key k q m e = elim (Option-cases (get h.profiles key)) [
    | inl n ↦ ground (arith, built-keeps key k q (build_profile env se me) h e)
    | inr (old, n) ↦ ground arith
  ]

  -- A cached profile is never replaced: after `profileFor` every key that had one has the same one. If
  -- the call gives a profile, then a call with payloads that marshal to the same key gives that very
  -- profile, from whatever they would build, and leaves the handler as it is.
  pub profile_for-again :
      (se me se' me' : Option Fields) (h : Handler Api) (key : String) (p : ApiProfile Api)
      → env.marshal se me ≡ ok key
      → env.marshal se' me' ≡ ok key
      → (profile_for env se me h).0 ≡ ok p
      → (profile_for env se' me' (profile_for env se me h).1 ≡ (ok p, (profile_for env se me h).1))
        × ((k : String) (q : ApiProfile Api)
            → get h.profiles k ≡ some q
            → get (profile_for env se me h).1.profiles k ≡ some q)
  profile_for-again se me se' me' h key p m m' e = (
    hit se' me' (profile_for env se me h).1 key p m' (found se me h key p m e),
    λ k q. keeps se me h key k q m,
  )
