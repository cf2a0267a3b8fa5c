-- ===== src/Server/Sessions.antt =====
-- Serving a connection, byte by byte, is handling its requests one after the other.
use tinyrange.Prelude.{
  ℕ, suc, ◌+◌, ◌^◌, ◌<◌, ◌≡◌, ◌∙◌, refl, sym, ap, String, none, List, [], ◌∷◌, ◌++◌, length, All,
  append-nil,
}
use tinyrange.Wire.Writer.{Sink}
use tinyrange.Sftp.Packets.{Request}
use tinyrange.Sftp.Layout.{
  RequestFits, request_kind, request_payload, reply_id, response_kind, sent_payload, ResponseSized,
  frame,
}
use tinyrange.Sftp.Decode.{decoded, decode, read_raw_packet}
use tinyrange.Sftp.Decoding.{decode-request}
use tinyrange.Sftp.Framing.{read_raw_packet-frame, write_packet-frame}
use tinyrange.Server.State.{Server, Env, Outcome, reply, refused, panicked, unfinished}
use tinyrange.Server.Dispatch.{
  Served, closed, crashed, handling, Session, handle_packet, after_write, after_handle,
  after_decode, after_read, serve_sftp,
}

-- what a client sends: the frames of its requests, each with its id
abbrev pub request_stream : List (Request × ℕ) → List ℕ
request_stream [] = []
request_stream ((r, id) ∷ rs) = frame (request_kind r) (request_payload r id) ++ request_stream rs

-- the requests fit the fields of their packets
abbrev pub Fits : Request × ℕ → Type 0
Fits (r, id) = RequestFits r × (id < 256 ^ 4) × (length (request_payload r id) + 1 < 2 ^ 32)

decoded_request :
    (r : Request) (id : ℕ)
    → RequestFits r
    → id < 256 ^ 4
    → decode (record { kind = request_kind r; payload = request_payload r id })
      ≡ decoded r (reply_id r id)
decoded_request r id fits lt =
    ap (λ (l : List ℕ). decode (record { kind = request_kind r; payload = l }))
      (sym (append-nil (request_payload r id)))
    ∙ decode-request r id [] fits lt

-- a connection that takes everything, and what it has taken
abbrev open_sink : List ℕ → Sink
open_sink sent = record { taken = sent; room = none }

abbrev ended : Served → Server → List ℕ → Session
ended result s sent = record { result = result; server = s; sink = open_sink sent }

-- What a client is sent for one request: the frame of the answer, with the id of the request, behind what
-- it was sent before. Nothing is sent for an error, and a handler that does not return is the last.
abbrev answered : (Server → List ℕ → Session) → ℕ → List ℕ → Outcome → Session
answered next id sent (reply p, s) = next s (sent ++ frame (response_kind p) (sent_payload p id))
answered next id sent (refused e, s) = next s sent
answered next id sent (panicked, s) = ended crashed s sent
answered next id sent (unfinished, s) = ended handling s sent

-- the answer, if there is one, fits its packet, and so do those behind it
abbrev AnswerFits : (Server → Type 0) → ℕ → Outcome → Type 0
AnswerFits next id (reply p, s) =
    ResponseSized p × (length (sent_payload p id) + 1 < 2 ^ 32) × next s
AnswerFits next id (refused e, s) = next s
AnswerFits next id (panicked, s) = Unit
AnswerFits next id (unfinished, s) = Unit

module _ (text_of : List ℕ → String) (links : ℕ) (env : ℕ → Env) where
  -- The requests handled in order.
  abbrev pub session : List (Request × ℕ) → Server → List ℕ → Session
  session [] s sent = ended closed s sent
  session ((r, id) ∷ rs) s sent =
      answered (λ s' sent'. session rs s' sent') (reply_id r id) sent
        (handle_packet text_of links (env (suc (length rs))) r s)

  -- the answers of the requests handled in order fit their packets
  abbrev pub AnswersFit : List (Request × ℕ) → Server → Type 0
  AnswersFit [] s = Unit
  AnswersFit ((r, id) ∷ rs) s =
      AnswerFits (λ s'. AnswersFit rs s') (reply_id r id)
        (handle_packet text_of links (env (suc (length rs))) r s)

  after_handle-answered :
      (f : Server → Sink → Session) (g : Server → List ℕ → Session) (Next : Server → Type 0)
      (id : ℕ) (sent : List ℕ)
      → ((t : Server) (l : List ℕ) → Next t → f t (open_sink l) ≡ g t l)
      → (o : Outcome) → AnswerFits Next id o
      → after_handle text_of links f id (open_sink sent) o ≡ answered g id sent o
  after_handle-answered f g Next id sent h (reply p, s) (sized, short, later) =
      ap (after_write text_of links f s) (write_packet-frame id p sent sized short)
      ∙ h s (sent ++ frame (response_kind p) (sent_payload p id)) later
  after_handle-answered f g Next id sent h (refused e, s) later = h s sent later
  after_handle-answered f g Next id sent h (panicked, s) later = refl
  after_handle-answered f g Next id sent h (unfinished, s) later = refl

  -- A client sends requests that fit their packets and then closes, and its connection takes every
  -- answer. The server, which reads the bytes, finds the packets in them, decodes, handles and answers
  -- them, does what the requests do when they are handled in order: each answer reaches the client as
  -- one frame with the id of its request, behind those before it, a request that is refused gets
  -- none, and a panic ends the session. The answers have to fit the 32-bit lengths of their packets.
  pub serve_sftp-session :
      (rs : List (Request × ℕ)) (s : Server) (sent : List ℕ)
      → All Fits rs
      → AnswersFit rs s
      → serve_sftp text_of links env (suc (length rs)) (request_stream rs) s (open_sink sent)
        ≡ session rs s sent
  unfolding serve_sftp read_raw_packet
  serve_sftp-session [] s sent h a = refl
  serve_sftp-session ((r, id) ∷ rs) s sent ((fits, id_fits, short), h) a =
      let next = λ (rest : List ℕ) (t : Server) (k : Sink).
        serve_sftp text_of links env (suc (length rs)) rest t k in
      ap (after_read text_of links next (env (suc (length rs))) s (open_sink sent))
        (read_raw_packet-frame (request_kind r) (request_payload r id) (request_stream rs) short)
      ∙ ap
          (after_decode text_of links (next (request_stream rs)) (env (suc (length rs))) s
            (open_sink sent))
          (decoded_request r id fits id_fits)
      ∙ after_handle-answered _ _ (λ t. AnswersFit rs t) (reply_id r id) sent
          (λ t l b. serve_sftp-session rs t l h b)
          (handle_packet text_of links (env (suc (length rs))) r s) a
