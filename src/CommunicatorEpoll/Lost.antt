-- ===== src/CommunicatorEpoll/Lost.antt =====
-- A server that closes the connection behind what it sent.
use tarsx.Prelude.{
  ℕ, ◌+◌, ◌<◌, ◌≡◌, refl, inl, inr, true, false, Option, none, some, List, [], ◌∷◌, ◌++◌, length,
  Option-cases, ◌>>=◌,
}
use tarsx.Buffer.{Byte, max_buffer_size, readable_size, empty, clear}
use tarsx.Buffer.Inv.{IsValid, contents}
use tarsx.Transceiver.{
  gone, Transceiver, close, receive_bytes, receive_loop, take_done, do_response,
}
use tarsx.Transceiver.Received.{in_pieces, arrived, receive_loop_lem}
use tarsx.CommunicatorEpoll.{handle_input_imp}
use tarsx.CommunicatorEpoll.Run.{NetLoop, of_transceiver, set_client, set_buffer, input, handle}

receive_loop-closed :
    (pieces : List (Byte × List Byte)) (t : Transceiver)
    → receive_loop (in_pieces pieces ++ gone ∷ []) t
      ≡ (do t' ← receive_loop (in_pieces pieces) t; some (close t'))
unfolding receive_loop
receive_loop-closed [] t = refl
receive_loop-closed ((x, xs) ∷ pieces) t =
    elim (Option-cases (receive_bytes (x ∷ xs) t.receive_buffer)) [
      | inl faulted ↦ rw faulted
      | inr (b, e) ↦ rw e (receive_loop-closed pieces (record t { receive_buffer = b }))
    ]

-- What is read of a closed transceiver: nothing.
do_response-closed :
    (pieces : List (Byte × List Byte)) (t : Transceiver)
    → t.valid ≡ true
    → IsValid t.receive_buffer
    → length (contents t.receive_buffer) + length (arrived pieces) + 8192 < max_buffer_size
    → (t' : Transceiver) × (do_response (in_pieces pieces ++ gone ∷ []) t ≡ some ([], t'))
      × (t'.valid ≡ false)
      × (contents t'.receive_buffer ≡ [])
      × (contents t'.send_buffer ≡ [])
unfolding do_response take_done close empty readable_size clear
do_response-closed pieces t open' v h =
    let r = receive_loop_lem pieces t v h in
    (
      record t { valid = false; send_buffer = clear t.send_buffer; receive_buffer = clear r.after },
      rw (receive_loop-closed pieces t, r.returned, open') refl,
      refl,
      refl,
      refl,
    )

-- Where the server closes the connection before the client's loop has read what it sent, all of that
-- is lost, answers that came whole too, and so are the bytes that were still to be sent: nothing
-- faults, the transceiver is closed and its buffers are empty, no caller is woken, no message changes,
-- and the calls that wait go on waiting. What was held and what came stays below `MaxBufferSize`.
pub handle_lost :
    (to_string : ℕ → List Byte) (atoi : List Byte → ℕ) (accepted : ℕ → Option ℕ)
    (pieces : List (Byte × List Byte)) (l : NetLoop)
    → l.trans.valid ≡ true
    → IsValid l.trans.receive_buffer
    → length (contents l.trans.receive_buffer) + length (arrived pieces) + 8192 < max_buffer_size
    → (l' : NetLoop) × (handle to_string atoi accepted
          (of_transceiver true false (in_pieces pieces ++ gone ∷ []) none [])
          l
        ≡ some l')
      × (l'.trans.valid ≡ false)
      × (contents l'.trans.receive_buffer ≡ [])
      × (contents l'.epoll.client.proxy.send_buffer ≡ [])
      × (l'.epoll.client.notified ≡ l.epoll.client.notified)
      × (l'.epoll.client.msgs ≡ l.epoll.client.msgs)
      × (l'.epoll.client.proxy.queue ≡ l.epoll.client.proxy.queue)
unfolding handle input handle_input_imp set_client set_buffer
handle_lost to_string atoi accepted pieces l open' v h =
    let before : Transceiver = record l.trans { send_buffer = l.epoll.client.proxy.send_buffer } in
    let (t', e, shut, received, sent) = do_response-closed pieces before open' v h in
    (
      set_client (set_buffer t'.send_buffer l.epoll.client) (record l { trans = t' }),
      rw e refl,
      shut,
      received,
      sent,
      refl,
      refl,
      refl,
    )
