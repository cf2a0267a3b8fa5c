-- ===== src/Sftp/Decoding.antt =====
-- `rawPacket.decode` of pkg/sftp/packet.go: what a packet in the layout of the protocol is decoded to.
use tinyrange.Prelude.{
  ℕ, ◌^◌, ◌<◌, ◌≡◌, ◌∙◌, ap, refl, List, [], ◌++◌, arith, append_assoc, Bool, true, false,
  if◌then◌else◌,
}
use tinyrange.Wire.Numbers.{big}
use tinyrange.Wire.Reader.{Read, take_error}
use tinyrange.Wire.RoundTrip.{at, Reads, Reads-uint}
use tinyrange.Sftp.Packets.{Request}
use tinyrange.Sftp.Layout.{u32, request_kind, RequestFits, request_payload, reply_id}
use tinyrange.Sftp.Decode.{decoded, decode_body, decode_with, decode, after_id, dispatch}
use tinyrange.Sftp.Requests.{Reads-request, decoder_of-kind}

decode_body-Reads :
    (m : Read Request) (fields : List ℕ) (r : Request) (id : ℕ) (rest : List ℕ) (off : ℕ)
    → Reads big m fields r
    → off < 2 ^ 64
    → decode_body m id (at big (fields ++ rest) off) ≡ decoded r id
unfolding decode_body take_error
decode_body-Reads m fields r id rest off h lt = rw (h.run rest off lt) refl

decode_with-init :
    (m : Read Request) (fields : List ℕ) (r : Request) (rest : List ℕ)
    → Reads big m fields r
    → decode_with true m (at big (fields ++ rest) 0) ≡ decoded r 0
unfolding decode_with
decode_with-init m fields r rest h = decode_body-Reads m fields r 0 rest 0 h (omega arith)

decode_with-id :
    (m : Read Request) (fields : List ℕ) (r : Request) (id : ℕ) (rest : List ℕ)
    → Reads big m fields r
    → id < 256 ^ 4
    → decode_with false m (at big ((u32 id ++ fields) ++ rest) 0) ≡ decoded r id
unfolding decode_with take_error
decode_with-id m fields r id rest h lt =
    let e = (Reads-uint big 4 id lt).run (fields ++ rest) 0 (omega arith) in
    rw (append_assoc (u32 id) fields rest)
      (ap (after_id m) e ∙ decode_body-Reads m fields r id rest _ h (omega arith))

decode_with-Reads :
    (is_init : Bool) (m : Read Request) (fields : List ℕ) (r : Request) (id : ℕ) (rest : List ℕ)
    → Reads big m fields r
    → id < 256 ^ 4
    → decode_with is_init m (at big (((if is_init then [] else u32 id) ++ fields) ++ rest) 0)
      ≡ decoded r (if is_init then 0 else id)
decode_with-Reads true m fields r id rest h lt = decode_with-init m fields r rest h
decode_with-Reads false m fields r id rest h lt = decode_with-id m fields r id rest h lt

-- A packet that holds a request in the layout of the protocol is decoded to that request and its id
-- (0 for the init packet, which has none), if the numbers and the lengths of the strings fit their
-- fields and fields of the attributes without a flag are 0; bytes behind the request change nothing.
pub decode-request :
    (r : Request) (id : ℕ) (rest : List ℕ)
    → RequestFits r
    → id < 256 ^ 4
    → decode (record { kind = request_kind r; payload = request_payload r id ++ rest })
      ≡ decoded r (reply_id r id)
unfolding decode
decode-request r id rest fits lt =
    ap (dispatch _) (decoder_of-kind r)
    ∙ decode_with-Reads _ _ _ r id rest (Reads-request r fits) lt
