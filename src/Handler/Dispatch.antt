-- ===== src/Handler/Dispatch.antt =====
-- `HandleMessage` of go/internal/pionserver/handler.go, and `processFrame` of server.go.
use flutter_pion_bridge.Prelude.{
  true, Option, none, some, pos, String, ◌+++◌, ◌==◌, false, Option, none, some, List, [], ◌∷◌,
  if◌then◌else◌,
}
use flutter_pion_bridge.Types.{Message, error_response}
use flutter_pion_bridge.Registry.{Registry, touch}
use flutter_pion_bridge.Result.{Result, failed, ok}
use flutter_pion_bridge.Handler.{Draw, Env, World}
use flutter_pion_bridge.Handler.Create.{handle_init, handle_pc_create}
use flutter_pion_bridge.Handler.Negotiate.{
  handle_pc_offer, handle_pc_answer, handle_pc_set_local_desc, handle_pc_set_remote_desc,
  handle_pc_add_ice, handle_pc_close, handle_pc_add_transceiver,
}
use flutter_pion_bridge.Handler.Channels.{
  handle_pc_create_dc, handle_dc_send, handle_dc_set_buffered_amount_low_threshold, handle_dc_close,
  handle_resource_delete,
}

-- The requests of the protocol.
pub data Request : Type 0 where
  init pc_create pc_offer pc_answer pc_set_local_desc pc_set_remote_desc pc_add_ice : Request
  pc_close pc_add_transceiver pc_create_dc dc_send : Request
  dc_set_threshold dc_close resource_delete unknown : Request

-- The `switch` on the type of the message.
unfoldable pub route : String → Request
route t =
    if t == "init"
    then init
    else if t == "pc:create"
    then pc_create
    else if t == "pc:offer"
    then pc_offer
    else if t == "pc:answer"
    then pc_answer
    else if t == "pc:setLocalDesc"
    then pc_set_local_desc
    else if t == "pc:setRemoteDesc"
    then pc_set_remote_desc
    else if t == "pc:addIce"
    then pc_add_ice
    else if t == "pc:close"
    then pc_close
    else if t == "pc:addTransceiver"
    then pc_add_transceiver
    else if t == "pc:createDc"
    then pc_create_dc
    else if t == "dc:send"
    then dc_send
    else if t == "dc:setBufferedAmountLowThreshold"
    then dc_set_threshold
    else if t == "dc:close"
    then dc_close
    else if t == "resource:delete"
    then resource_delete
    else unknown

module _ {S Api : Type 0} (env : Env S Api) where
  unfoldable pub handle : Request → Draw → Message → World S Api → Message × World S Api
  handle init draw msg w = handle_init env msg w
  handle pc_create draw msg w = handle_pc_create env draw msg w
  handle pc_offer draw msg w = handle_pc_offer env draw msg w
  handle pc_answer draw msg w = handle_pc_answer env draw msg w
  handle pc_set_local_desc draw msg w = handle_pc_set_local_desc env draw msg w
  handle pc_set_remote_desc draw msg w = handle_pc_set_remote_desc env draw msg w
  handle pc_add_ice draw msg w = handle_pc_add_ice env draw msg w
  handle pc_close draw msg w = handle_pc_close env draw msg w
  handle pc_add_transceiver draw msg w = handle_pc_add_transceiver env draw msg w
  handle pc_create_dc draw msg w = handle_pc_create_dc env draw msg w
  handle dc_send draw msg w = handle_dc_send env msg w
  handle dc_set_threshold draw msg w = handle_dc_set_buffered_amount_low_threshold env draw msg w
  handle dc_close draw msg w = handle_dc_close env draw msg w
  handle resource_delete draw msg w = handle_resource_delete env draw msg w
  handle unknown draw msg w =
      (error_response msg.id "INVALID_REQUEST" ("unknown message type: " +++ msg.type) false "", w)

  unfoldable pub handle_message : Draw → Message → World S Api → Message × World S Api
  handle_message draw msg w = handle (route msg.type) draw msg w

  -- A response with an empty type is not queued.
  unfoldable pub queued : Message → List Message
  queued m = if m.type == "" then [] else m ∷ []

  -- The deferred `recover`, which has an id of 0 to answer with.
  unfoldable pub recover_frame : Option String → Message × World S Api → List Message × World S Api
  recover_frame none out = (queued out.0, out.1)
  recover_frame (some text) out =
      (error_response (pos 0) "FATAL_PANIC" text true "" ∷ [], record out.1 { panicked = none })

  unfoldable pub answer_queued : Draw → Message → World S Api → Option (List Message × World S Api)
  answer_queued draw msg w =
      let out = handle_message draw msg (record w { panicked = none }) in
      some (recover_frame out.1.panicked out)

  unfoldable pub answer_touched :
      Draw → Message → World S Api → Option Registry → Option (List Message × World S Api)
  answer_touched draw msg w none = none
  answer_touched draw msg w (some r) = answer_queued draw msg (record w { registry = r })

  -- `processFrame` on a frame that the decoder refuses or reads as a message, with what it queues. It has no
  -- result where the walk of `Touch` does not end. A panic of pion is not modelled here, see
  -- Handler/Pool.antt.
  unfoldable pub process_frame :
      Draw → Result String Message → World S Api → Option (List Message × World S Api)
  process_frame draw (failed e) w =
      some (error_response (pos 0) "INVALID_REQUEST" ("invalid msgpack: " +++ e) false "" ∷ [], w)
  process_frame draw (ok msg) w =
      if msg.handle == ""
      then answer_queued draw msg w
      else answer_touched draw msg w (touch draw.now msg.handle w.registry)
