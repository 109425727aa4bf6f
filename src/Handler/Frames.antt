-- ===== src/Handler/Frames.antt =====
-- What `processFrame` of go/internal/pionserver/server.go queues for a frame.
use Prim.Native.String.{len}
use text.Mathlib.TextPositions.{len-append}
use flutter_pion_bridge.Prelude.{
  true, Option, none, ℕ, ℤ, pos, ◌+◌, ◌≡◌, refl, sym, ap, ◌∙◌, subst, String, ◌+++◌, ◌==◌, false,
  some, List, [], ◌∷◌, ◌++◌, arith, eq_iff, Bool-cases, inl, inr, ◌⊎◌,
}
use flutter_pion_bridge.Types.{Message, blank, error_response}
use flutter_pion_bridge.Result.{Result, failed, ok}
use flutter_pion_bridge.DcSend.{DcSendWork}
use flutter_pion_bridge.Registry.{Registry, touch}
use flutter_pion_bridge.Registry.Reachable.{IsFresh, Reach-IsConsistent}
use flutter_pion_bridge.Registry.Cleanup.Walk.{OnlyStamps, touch_total}
use flutter_pion_bridge.Handler.{Draw, Env, World}
use flutter_pion_bridge.Handler.Dispatch.{
  handle_message, queued, recover_frame, answer_queued, answer_touched, process_frame,
}
use flutter_pion_bridge.Handler.Replies.{Replied}
use flutter_pion_bridge.Handler.Answers.{Handed, handle_message-Replied}
use flutter_pion_bridge.Handler.Serving.{touched-IsServed, IsServed}
use flutter_pion_bridge.Handler.Consistency.{handle_message-IsServed}

touched-IsFresh : (u : String) (r r' : Registry) → OnlyStamps r r' → IsFresh r u → IsFresh r' u
touched-IsFresh u r r' o v = record {
  unregistered = ground (arith, o.resources, v.unregistered);
  unparented = ground (arith, o.parent, v.unparented);
  childless = ground (arith, o.children, v.childless);
}

no_sum : (n : ℕ) → n + len ":ack" ≡ len "" → ⊥
no_sum n q = omega (arith, q)

ack-ne : (t : String) → ((t +++ ":ack") == "") ≡ false
ack-ne t = elim (Bool-cases ((t +++ ":ack") == "")) [
  | inl e ↦ absurd (empty_len ((eq_iff (t +++ ":ack") "").0 e))
  | inr e ↦ e
]
  where
    empty_len : t +++ ":ack" ≡ "" → ⊥
    empty_len q = no_sum (len t) (sym (len-append t ":ack") ∙ ap len q)

-- The id that answers a frame: that of its message, or 0.
abbrev pub id_of : Result String Message → ℤ
id_of (failed e) = pos 0
id_of (ok msg) = msg.id

module _ {S Api : Type 0} (env : Env S Api) where
  -- One response with the id is queued; or none, and the work of a `dc:send` with the id is handed over; or Go
  -- cannot make a queue of the configured depth, and the panic is answered with an id of 0.
  pub IsAnswered : ℤ → World S Api → List Message × World S Api → Type 0
  IsAnswered id w out =
      ((m : Message) × (out.0 ≡ m ∷ []) × (m.id ≡ id) × (out.1.work ≡ w.work))
      ⊎ (((out.0 ≡ [])
            × ((state : ℕ) × (work : DcSendWork) × (out.1.work ≡ w.work ++ (state, work) ∷ [])
                × (work.msg_id ≡ id)
                × (work.send_event ≡ some env.session)))
          ⊎ ((text : String) × (env.make_panics w.handler.dc_config.send_queue_depth ≡ some text)
              × (out.0 ≡ error_response (pos 0) "FATAL_PANIC" text true "" ∷ [])
              × (out.1.work ≡ w.work)))

  queued-one :
      (type : String) (m : Message)
      → (m.type ≡ type +++ ":ack") ⊎ (m.type ≡ "error")
      → queued env m ≡ m ∷ []
  unfolding queued
  queued-one type m (inl e) = ground (arith, ack-ne type)
  queued-one type m (inr e) = rw e refl

  queued-blank : (m : Message) → m ≡ blank → queued env m ≡ []
  unfolding queued
  queued-blank m e = rw e refl

  -- What `recover` makes of what the handler left.
  recover_frame-registry :
      (o : Option String) (out : Message × World S Api)
      → (recover_frame env o out).1.registry ≡ out.1.registry
  unfolding recover_frame
  recover_frame-registry none out = refl
  recover_frame-registry (some text) out = refl

  Replied-IsAnswered :
      (msg : Message) (w : World S Api) (out : Message × World S Api)
      → Replied env msg.type msg (record w { panicked = none }) out
      → IsAnswered msg.id w (recover_frame env out.1.panicked out)
  unfolding recover_frame IsAnswered
  Replied-IsAnswered msg w out r = elim r.calm [
    | inl calm ↦
        subst (λ o. IsAnswered msg.id w (recover_frame env o out)) (sym calm)
          (inl (out.0, queued-one msg.type _ r.type_of, r.id, r.work))
    | inr (type, (text, bad, left)) ↦
        subst (λ o. IsAnswered msg.id w (recover_frame env o out)) (sym left)
          (inr (inr (text, bad, refl, r.work)))
  ]

  Handed-IsAnswered :
      (msg : Message) (w : World S Api) (out : Message × World S Api)
      → Handed env msg.type msg (record w { panicked = none }) out
      → IsAnswered msg.id w (recover_frame env out.1.panicked out)
  unfolding recover_frame IsAnswered Handed
  Handed-IsAnswered msg w out
        (type, none_now, calm, (state, work, here, left, carries, id, handle, back)) =
      subst (λ o. IsAnswered msg.id w (recover_frame env o out)) (sym calm)
        (inr (inl (queued-blank out.0 none_now, (state, work, left, id, back))))

  answer_queued-IsAnswered :
      (draw : Draw) (msg : Message) (w : World S Api)
      → (out : List Message × World S Api) × (answer_queued env draw msg w ≡ some out)
        × IsAnswered msg.id w out
        × (out.1.registry ≡ (handle_message env draw msg (record w { panicked = none })).1.registry)
  unfolding answer_queued
  answer_queued-IsAnswered draw msg w =
      let done = handle_message env draw msg (record w { panicked = none }) in
      (
        recover_frame env done.1.panicked done,
        refl,
        elim (handle_message-Replied env draw msg (record w { panicked = none })) [
          | inl r ↦ Replied-IsAnswered msg w done r
          | inr h ↦ Handed-IsAnswered msg w done h
        ],
        recover_frame-registry done.1.panicked done,
      )

  answer_touched-IsAnswered :
      (draw : Draw) (msg : Message) (w : World S Api)
      → IsFresh w.registry draw.uuid
      → IsServed w.registry
      → (out : List Message × World S Api) × (answer_touched env draw msg w
            (touch draw.now msg.handle w.registry)
          ≡ some out)
        × IsAnswered msg.id w out
        × IsServed out.1.registry
  unfolding answer_touched IsAnswered
  answer_touched-IsAnswered draw msg w fresh v =
      let (r, e, o) = touch_total draw.now msg.handle w.registry (Reach-IsConsistent v.reach) in
      let u = record w { registry = r } in
      let (out, done, answered, left) = answer_queued-IsAnswered draw msg u in
      (
        out,
        rw e done,
        answered,
        subst IsServed (sym left) (
            handle_message-IsServed env draw msg (record u { panicked = none })
              (touched-IsFresh draw.uuid w.registry r o fresh)
              (touched-IsServed draw.now msg.handle w.registry r e o v)),
      )

  -- Every frame has a result, also where its handle is one whose owners `Touch` walks up to: with a registry
  -- that its operations reach, whose children are DataChannels and which does not have the
  -- UUID drawn, either one response with the id of the message (0 where the decoder refuses the frame) is
  -- queued, or nothing is and the work of a `dc:send` with that id and this session is handed
  -- over, or the error of a panic is, where Go cannot make a queue of the configured depth; and the registry
  -- is such a one again.
  pub process_frame_answers :
      (draw : Draw) (decoded : Result String Message) (w : World S Api)
      → IsFresh w.registry draw.uuid
      → IsServed w.registry
      → (out : List Message × World S Api) × (process_frame env draw decoded w ≡ some out)
        × IsAnswered (id_of decoded) w out
        × IsServed out.1.registry
  unfolding process_frame
  process_frame_answers draw (failed e) w fresh v = (
    (error_response (pos 0) "INVALID_REQUEST" ("invalid msgpack: " +++ e) false "" ∷ [], w),
    refl,
    unfold IsAnswered in
        inl (
          error_response (pos 0) "INVALID_REQUEST" ("invalid msgpack: " +++ e) false "",
          refl,
          unfold error_response in refl,
          refl,
        ),
    v,
  )
  process_frame_answers draw (ok msg) w fresh v = elim (Bool-cases (msg.handle == "")) [
    | inl e ↦ rw e (
        let (out, done, answered, left) = answer_queued-IsAnswered draw msg w in
        (
          out,
          done,
          answered,
          subst IsServed (sym left)
              (handle_message-IsServed env draw msg (record w { panicked = none }) fresh v),
        ))
    | inr e ↦ rw e (answer_touched-IsAnswered draw msg w fresh v)
  ]
