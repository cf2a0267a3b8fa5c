-- ===== src/Sftp/Framing.antt =====
-- `writePacket` and `readRawPacket` of pkg/sftp/packet.go: the frames on the connection.
use tinyrange.Prelude.{
  ℕ, ◌+◌, ◌^◌, ◌<◌, ◌≡◌, ◌∙◌, ap, refl, List, [], ◌∷◌, ◌++◌, none, arith, length, length-append,
  append_assoc, Bool, true, false, ◌==◌, if◌then◌else◌, le→leb, take, drop, take-append,
  drop-append,
}
use native.Mathlib.Nat.{mod-eq_of_lt}
use tinyrange.Wire.Numbers.{big, get_uint-put_uint, length-put_uint}
use tinyrange.Wire.Writer.{Writer, sink_write, take_write_error}
use tinyrange.Wire.Appends.{buffered, Appends-uint}
use tinyrange.Sftp.Packets.{
  Response, response_type, version, attributes, handle, names, contents, status,
}
use tinyrange.Sftp.Layout.{
  u32, response_kind, response_payload, ResponseFits, sent_fields, sent_payload, ResponseSized,
  frame,
}
use tinyrange.Sftp.Decode.{packet, read_raw_packet, read_body, split_packet}
use tinyrange.Sftp.Encode.{packet_data, after_write_id, send_data, write_packet}
use tinyrange.Sftp.Encoding.{Appends-encode, ResponseFits-ResponseSized, sent_fields-ResponseFits}

response_type-kind : (p : Response) → response_type p ≡ response_kind p
unfolding response_type
response_type-kind (version v) = refl
response_type-kind (attributes a) = refl
response_type-kind (handle h) = refl
response_type-kind (names ns) = refl
response_type-kind (contents d) = refl
response_type-kind (status code message language) = refl

taken_error :
    (w : Writer) (bs : List ℕ) (off : ℕ)
    → w ≡ buffered bs off
    → take_write_error w ≡ (none, buffered bs off)
unfolding take_write_error
taken_error w bs off e = ap take_write_error e

-- the fields in the buffer, with or without the id before them
data_end : Bool → ℕ → (p : Response) → ResponseSized p → ℕ
data_end true id p h = (Appends-encode p h).end_offset 0
data_end false id p h = (Appends-encode p h).end_offset ((Appends-uint 4 id).end_offset 0)

packet_data-Sized :
    (is_version : Bool) (id : ℕ) (p : Response) (h : ResponseSized p)
    → packet_data is_version id p ≡ (
      none,
      buffered ((if is_version then [] else u32 id) ++ sent_fields p) (data_end is_version id p h),
    )
unfolding packet_data data_end
packet_data-Sized true id p h = taken_error _ _ _ ((Appends-encode p h).run [] 0)
packet_data-Sized false id p h =
    ap (after_write_id p) (taken_error _ _ _ ((Appends-uint 4 id).run [] 0))
    ∙ taken_error _ _ _ ((Appends-encode p h).run (u32 id) _)

send_data-buffered :
    (p : Response) (sent payload : List ℕ) (off : ℕ)
    → length payload + 1 < 2 ^ 32
    → send_data p (record { taken = sent; room = none }) (none, buffered payload off)
      ≡ (none, record { taken = sent ++ frame (response_kind p) payload; room = none })
unfolding sink_write
send_data-buffered p sent payload off lt =
    rw
      (
        mod-eq_of_lt {n = length payload + 1} {m = 2 ^ 32} lt,
        response_type-kind p,
        append_assoc sent (u32 (length payload + 1) ++ response_kind p ∷ []) payload,
        append_assoc (u32 (length payload + 1)) (response_kind p ∷ []) payload,
      )
      refl

pub write_packet-frame :
    (id : ℕ) (p : Response) (sent : List ℕ)
    → ResponseSized p
    → length (sent_payload p id) + 1 < 2 ^ 32
    → write_packet id p (record { taken = sent; room = none })
      ≡ (none, record { taken = sent ++ frame (response_kind p) (sent_payload p id); room = none })
unfolding write_packet
write_packet-frame id p sent h lt =
    ap (λ (k : ℕ). send_data p (record { taken = sent; room = none }) (packet_data (k == 2) id p))
      (response_type-kind p)
    ∙ ap (send_data p (record { taken = sent; room = none }))
        (packet_data-Sized (response_kind p == 2) id p h)
    ∙ send_data-buffered p sent (sent_payload p id) (data_end (response_kind p == 2) id p h) lt

sent_payload-ResponseFits :
    (id : ℕ) (p : Response) → ResponseFits p → sent_payload p id ≡ response_payload p id
sent_payload-ResponseFits id p h =
    ap (λ (l : List ℕ). (if response_kind p == 2 then [] else u32 id) ++ l)
      (sent_fields-ResponseFits p h)

take_exact : (n : ℕ) (xs ys : List ℕ) → length xs ≡ n → take n (xs ++ ys) ≡ xs
take_exact n xs ys e = rw (← e) (take-append xs ys)

drop_exact : (n : ℕ) (xs ys : List ℕ) → length xs ≡ n → drop n (xs ++ ys) ≡ ys
drop_exact n xs ys e = rw (← e) (drop-append xs ys)

read_body-exact :
    (n : ℕ) (xs ys : List ℕ) → length xs ≡ n → read_body n (xs ++ ys) ≡ split_packet xs ys
read_body-exact n xs ys e =
    rw
      (
        le→leb n (length (xs ++ ys)) (omega (arith, length-append xs ys)),
        take_exact n xs ys e,
        drop_exact n xs ys e,
      )
      refl

read_raw_packet-prefix :
    (n : ℕ) (body : List ℕ) → n < 256 ^ 4 → read_raw_packet (u32 n ++ body) ≡ read_body n body
unfolding read_raw_packet
read_raw_packet-prefix n body lt =
    let e = length-put_uint big 4 n in
    rw
      (
        le→leb 4 (length (u32 n ++ body)) (omega (arith, length-append (u32 n) body)),
        take_exact 4 (u32 n) body e,
        drop_exact 4 (u32 n) body e,
        get_uint-put_uint big 4 n lt,
      )
      refl

pub read_raw_packet-frame :
    (kind : ℕ) (payload rest : List ℕ)
    → length payload + 1 < 2 ^ 32
    → read_raw_packet (frame kind payload ++ rest)
      ≡ packet (record { kind = kind; payload = payload }) rest
read_raw_packet-frame kind payload rest lt =
    rw (append_assoc (u32 (length payload + 1)) (kind ∷ payload) rest) (
      read_raw_packet-prefix (length payload + 1) (kind ∷ payload ++ rest) lt
      ∙ read_body-exact (length payload + 1) (kind ∷ payload) rest (omega arith))

-- A response that is written to a connection without an error adds one frame of the protocol to what
-- was sent, and a reader that stands at the frame gets the kind and the payload of the response, and
-- keeps what follows. The strings and the frame have to fit their 32-bit lengths, and every name of
-- a listing has to have all attributes.
pub read_raw_packet-write_packet :
    (id : ℕ) (p : Response) (sent rest : List ℕ)
    → ResponseFits p
    → length (response_payload p id) + 1 < 2 ^ 32
    → (write_packet id p (record { taken = sent; room = none }) ≡ (
      none,
      record { taken = sent ++ frame (response_kind p) (response_payload p id); room = none },
    ))
      × (read_raw_packet (frame (response_kind p) (response_payload p id) ++ rest)
          ≡ packet (record { kind = response_kind p; payload = response_payload p id }) rest)
read_raw_packet-write_packet id p sent rest h lt = (
  rw (← sent_payload-ResponseFits id p h) (
      write_packet-frame id p sent (ResponseFits-ResponseSized p h)
        (rw (← sent_payload-ResponseFits id p h) at lt)),
  read_raw_packet-frame (response_kind p) (response_payload p id) rest lt,
)
