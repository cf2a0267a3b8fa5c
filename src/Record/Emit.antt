-- ===== src/Record/Emit.antt =====
-- `Emit` of pkg/record/record2.go, value after value.
use mathlib.Core.Path.{subst}
use tinyrange.Prelude.{
  ℕ, ◌≤◌, ◌≡◌, ◌∙◌, sym, ap, true, none, List, [], ◌∷◌, ◌++◌, length, arith, All, append_assoc,
  append-nil,
}
use tinyrange.Wire.Writer.{sink_write}
use tinyrange.Record.Buffer.{put, length-put, take-put}
use tinyrange.Record.Values.{Value}
use tinyrange.Record.Writer.{RecordWriter, Emitted, emitted, sent, emit_written, emit}
use tinyrange.Record.Layout.{layout, is_writable}
use tinyrange.Record.Written.{write_to-layout}

-- Values handed to `Emit` one after the other, up to the first error.
abbrev emit_next :
    (RecordWriter → Emitted × RecordWriter) → Emitted × RecordWriter → Emitted × RecordWriter
emit_next next (emitted, w) = next w
emit_next next (Emitted.sink_error e, w) = (Emitted.sink_error e, w)
emit_next next (Emitted.too_long, w) = (Emitted.too_long, w)
emit_next next (Emitted.not_writable, w) = (Emitted.not_writable, w)

abbrev pub emit_all : List Value → RecordWriter → Emitted × RecordWriter
emit_all [] w = (emitted, w)
emit_all (v ∷ vs) w = emit_next (λ w'. emit_all vs w') (emit v w)

abbrev pub layouts : List Value → List ℕ
layouts [] = []
layouts (v ∷ vs) = layout v ++ layouts vs

-- the value can be written, and fits a buffer of this length
abbrev pub Emits : ℕ → Value → Type 0
Emits n v = (is_writable v ≡ true) × (length (layout v) ≤ n)

pub emit-layout :
    (v : Value) (w : RecordWriter)
    → Emits (length w.record_buf) v
    → emit v w ≡ sent (put 0 (layout v) w.record_buf) (sink_write (layout v) w.sink)
unfolding emit
emit-layout v w (h, le) =
    ap (emit_written w.sink) (write_to-layout v h 0 w.record_buf (omega arith))
    ∙ ap (λ (l : List ℕ). sent (put 0 (layout v) w.record_buf) (sink_write l w.sink))
        (take-put (layout v) w.record_buf le)

-- the bytes that a writer has handed on
abbrev pub output : Emitted × RecordWriter → Emitted × List ℕ
output (e, w) = (e, w.sink.taken)

-- A record writer over a writer that takes everything: if every value can be written and its layout
-- fits the buffer, then every `Emit` succeeds, and what was written are the layouts of the values, one
-- after the other, whatever the buffer held before.
pub emit_all-layouts :
    (vs : List Value) (taken buf : List ℕ)
    → All (Emits (length buf)) vs
    → output
        (emit_all vs (record { sink = record { taken = taken; room = none }; record_buf = buf }))
      ≡ (emitted, taken ++ layouts vs)
unfolding sink_write
emit_all-layouts [] taken buf h = ap (λ (l : List ℕ). (emitted, l)) (sym (append-nil taken))
emit_all-layouts (v ∷ vs) taken buf ((a, le), h) =
    let buf' = put 0 (layout v) buf in
    ap (λ (r : Emitted × RecordWriter). output (emit_next (λ w'. emit_all vs w') r))
      (emit-layout v _ (a, le))
    ∙ emit_all-layouts vs (taken ++ layout v) buf'
        (subst (λ (n : ℕ). All (Emits n) vs) (sym (length-put 0 (layout v) buf)) h)
    ∙ ap (λ (l : List ℕ). (emitted, l)) (append_assoc taken (layout v) (layouts vs))
