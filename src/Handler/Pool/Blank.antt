-- ===== src/Handler/Pool/Blank.antt =====
-- The pool of messages of go/internal/pionserver/server.go leaves no trace of an earlier frame.
use mathlib.Core.Path.{fun_ext}
use flutter_pion_bridge.Prelude.{
  ℕ, zero, suc, pos, String, ◌==◌, true, false, Option, some, List, [], ◌∷◌, elem, if◌then◌else◌,
  ◌≡◌, refl, sym, ap, ◌∙◌, subst, arith, eq_iff, All, Option-cases, inl, inr,
}
use flutter_pion_bridge.Types.{Fields, field, end, Message, blank}
use flutter_pion_bridge.Session.{pick}
use flutter_pion_bridge.Handler.{Draw, Env, World}
use flutter_pion_bridge.Handler.Pool.{
  without_field, field_names, delete_each, put_message, get_message, Arrival, process_into,
  process_pooled, then_with, serve, serve_new,
}

elem-without_field :
    (k j : String) (fs : Fields)
    → elem j (field_names (without_field k fs))
      ≡ (if k == j then false else elem j (field_names fs))
unfolding without_field field_names elem
elem-without_field k j end = ground arith
elem-without_field k j (field i v fs) =
    ground (arith, elem-without_field k j fs, eq_iff i k, eq_iff k j, eq_iff i j)

delete_each-end :
    (ks : List String) (fs : Fields)
    → ((j : String) → elem j (field_names fs) ≡ true → elem j ks ≡ true)
    → delete_each ks fs ≡ end
unfolding delete_each elem
delete_each-end [] end sub = refl
delete_each-end [] (field k v fs) sub =
    absurd (ground (arith, sub k (unfold field_names in ground (arith, eq_iff k k))))
delete_each-end (k ∷ ks) fs sub =
    delete_each-end ks (without_field k fs)
      λ j e. ground (arith, sub j, elem-without_field k j fs, eq_iff k j)

-- A message that goes back to the pool is like a new one.
put_message-blank : (m : Message) (pool : List Message) → put_message m pool ≡ blank ∷ pool
unfolding put_message
put_message-blank m pool =
    ap (λ fs. record { type = ""; id = pos 0; handle = ""; fields = fs } ∷ pool)
      (delete_each-end (field_names m.fields) m.fields (λ j e. e))

abbrev pub AllBlank : List Message → Type 0
AllBlank pool = All (λ m. m ≡ blank) pool

pick-AllBlank :
    (n : ℕ) (pool : List Message) (m : Message) (rest : List Message)
    → AllBlank pool
    → pick n pool ≡ some (m, rest)
    → (m ≡ blank) × AllBlank rest
unfolding pick
pick-AllBlank n [] m rest v e = absurd (ground arith)
pick-AllBlank zero (x ∷ xs) m rest v e =
    let head : x ≡ m = ground arith in
    let tail : xs ≡ rest = ground arith in (sym head ∙ v.0, subst AllBlank tail v.1)
pick-AllBlank (suc n) (x ∷ xs) m rest v e = elim (Option-cases (pick n xs)) [
  | inl out ↦ absurd (ground arith)
  | inr ((y, ys), found) ↦
      let (here, left) = pick-AllBlank n xs y ys v.1 found in
      let same : y ≡ m = ground arith in
      let tail : x ∷ ys ≡ rest = ground arith in (sym same ∙ here, subst AllBlank tail (v.0, left))
]

get_message-AllBlank :
    (n : ℕ) (pool : List Message)
    → AllBlank pool
    → ((get_message n pool).0 ≡ blank) × AllBlank (get_message n pool).1
unfolding get_message
get_message-AllBlank n pool v = elim (Option-cases (pick n pool)) [
  | inl out ↦ rw out (refl, v)
  | inr ((m, rest), found) ↦ rw found (pick-AllBlank n pool m rest v found)
]

module _ {S Api : Type 0} (env : Env S Api) (unmarshal : List ℕ → Message → Option String × Message)
    (panics : Draw → Message → World S Api → Option (String × World S Api)) where
  -- While every message in the pool is blank, which holds of the empty pool, frames are processed as if each
  -- had a new message: whatever the decoder leaves in a message, which message of the pool a frame
  -- gets, and which frames are refused or panic on the way.
  pub serve-serve_new :
      (frames : List Arrival) (pool : List Message) (w : World S Api)
      → AllBlank pool
      → serve env unmarshal panics frames pool w ≡ serve_new env unmarshal panics frames w
  unfolding serve serve_new process_pooled
  serve-serve_new [] pool w v = refl
  serve-serve_new (a ∷ rest) pool w v =
      let (got, left) = get_message-AllBlank a.choice pool v in
      let m = (get_message a.choice pool).0 in
      let pool' = put_message (unmarshal a.bytes m).1 (get_message a.choice pool).1 in
      let v' : AllBlank pool' =
        subst AllBlank
          (sym (put_message-blank (unmarshal a.bytes m).1 (get_message a.choice pool).1))
          (refl, left) in
      let later : serve env unmarshal panics rest pool' ≡ serve_new env unmarshal panics rest =
        fun_ext (λ u. serve-serve_new rest pool' u v') in
      ap
        (λ k.
          then_with env unmarshal panics
            (process_into env unmarshal panics a.draw (unmarshal a.bytes m) w) k)
        later
      ∙ ap
          (λ x.
            then_with env unmarshal panics
              (process_into env unmarshal panics a.draw (unmarshal a.bytes x) w)
              (serve_new env unmarshal panics rest))
          got
