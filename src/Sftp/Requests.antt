-- ===== src/Sftp/Requests.antt =====
-- The server reads every request of the protocol as the client wrote it.
use tinyrange.Prelude.{ℕ, ◌^◌, ◌<◌, ◌≡◌, refl, List, ◌++◌, some, length, Bool, true, false}
use tinyrange.Wire.Numbers.{big, put_uint}
use tinyrange.Wire.Reader.{Read, ◌>>=◌, pure, read_bytes, read_uint}
use tinyrange.Wire.RoundTrip.{Reads, Reads-bytes, Reads-pure, Reads-bind, Reads-uint}
use tinyrange.Sftp.Packets.{
  Text, Attrs, Request, init, open_file, close, read, write, remove, rename, mkdir, rmdir, opendir,
  readdir, stat, lstat, fstat, setstat, fsetstat, readlink, symlink, realpath,
}
use tinyrange.Sftp.Layout.{
  u32, u64, text, when, attrs_bytes, AttrsFit, FieldFits, TextFits, request_kind, request_fields,
  RequestFits,
}
use tinyrange.Sftp.Decode.{
  read_text, read_if, read_attrs, read_one, read_two, read_with_attrs, decode_init, decode_open,
  decode_close, decode_read, decode_write, decode_remove, decode_rename, decode_mkdir, decode_rmdir,
  decode_opendir, decode_readdir, decode_stat, decode_lstat, decode_fstat, decode_setstat,
  decode_fsetstat, decode_readlink, decode_symlink, decode_realpath, decoder_of,
}

pub Reads-map :
    {A B : Type 0} (m : Read A) (f : A → B) (xs : List ℕ) (a : A)
    → Reads big m xs a
    → Reads big (m >>= λ x. pure (f x)) xs (f a)
unfolding ◌>>=◌
Reads-map m f xs a h = record { run = λ rest off lt. rw (h.run rest off lt) refl }

Reads-text : (s : Text) → TextFits s → Reads big read_text (text s) s
unfolding read_text
Reads-text s h =
    Reads-bind big (read_uint 4) read_bytes (u32 (length s)) s (length s) s
      (Reads-uint big 4 (length s) h) (Reads-bytes big (length s) s refl)

Reads-if :
    (b : Bool) (n v : ℕ) → FieldFits b n v → Reads big (read_if b n) (when b (put_uint big n v)) v
unfolding read_if
Reads-if true n v h = Reads-uint big n v h
Reads-if false n v h = rw h (Reads-pure big 0)

pub Reads-attrs : (a : Attrs) → AttrsFit a → Reads big read_attrs (attrs_bytes a) a
unfolding read_attrs
Reads-attrs a h =
    Reads-bind big _ _ (u32 a.flags) _ a.flags a (Reads-uint big 4 a.flags h.flags_fit) (
      Reads-bind big _ _ _ _ a.size a (Reads-if _ 8 a.size h.size_fits) (
        Reads-bind big _ _ _ _ a.uid a (Reads-if _ 4 a.uid h.uid_fits) (
          Reads-bind big _ _ _ _ a.gid a (Reads-if _ 4 a.gid h.gid_fits) (
            Reads-bind big _ _ _ _ a.permissions a (Reads-if _ 4 a.permissions h.permissions_fit) (
              Reads-bind big _ _ _ _ a.atime a (Reads-if _ 4 a.atime h.atime_fits)
                (Reads-map _ _ _ a.mtime (Reads-if _ 4 a.mtime h.mtime_fits)))))))

-- a decoder, and what it reads
pub Reads-one :
    (make : Text → Request) (s : Text) → TextFits s → Reads big (read_one make) (text s) (make s)
Reads-one make s h = Reads-map _ make _ s (Reads-text s h)

pub Reads-two :
    (make : Text → Text → Request) (s t : Text)
    → TextFits s
    → TextFits t
    → Reads big (read_two make) (text s ++ text t) (make s t)
Reads-two make s t h k =
    Reads-bind big _ _ _ _ s (make s t) (Reads-text s h) (Reads-map _ _ _ t (Reads-text t k))

pub Reads-with_attrs :
    (make : Text → Attrs → Request) (s : Text) (a : Attrs)
    → TextFits s
    → AttrsFit a
    → Reads big (read_with_attrs make) (text s ++ attrs_bytes a) (make s a)
Reads-with_attrs make s a h k =
    Reads-bind big _ _ _ _ s (make s a) (Reads-text s h) (Reads-map _ _ _ a (Reads-attrs a k))

Reads-open :
    (p : Text) (f : ℕ) (a : Attrs)
    → TextFits p
    → f < 256 ^ 4
    → AttrsFit a
    → Reads big decode_open (text p ++ (u32 f ++ attrs_bytes a)) (open_file p f a)
unfolding decode_open
Reads-open p f a h k l = Reads-bind big _ _ _ _ p (open_file p f a) (Reads-text p h) (
    Reads-bind big _ _ _ _ f (open_file p f a) (Reads-uint big 4 f k)
      (Reads-map _ _ _ a (Reads-attrs a l)))

Reads-read :
    (p : Text) (o l : ℕ)
    → TextFits p
    → o < 256 ^ 8
    → l < 256 ^ 4
    → Reads big decode_read (text p ++ (u64 o ++ u32 l)) (read p o l)
unfolding decode_read
Reads-read p o l h k m = Reads-bind big _ _ _ _ p (read p o l) (Reads-text p h) (
    Reads-bind big _ _ _ _ o (read p o l) (Reads-uint big 8 o k)
      (Reads-map _ _ _ l (Reads-uint big 4 l m)))

Reads-write :
    (p : Text) (o : ℕ) (d : Text)
    → TextFits p
    → o < 256 ^ 8
    → TextFits d
    → Reads big decode_write (text p ++ (u64 o ++ text d)) (write p o d)
unfolding decode_write
Reads-write p o d h k m = Reads-bind big _ _ _ _ p (write p o d) (Reads-text p h) (
    Reads-bind big _ _ _ _ o (write p o d) (Reads-uint big 8 o k)
      (Reads-map _ _ _ d (Reads-text d m)))

-- the decoder of each request, by its kind
abbrev pub request_decoder : Request → Read Request
request_decoder (init v) = decode_init
request_decoder (open_file p f a) = decode_open
request_decoder (close h) = decode_close
request_decoder (read h o l) = decode_read
request_decoder (write h o d) = decode_write
request_decoder (lstat p) = decode_lstat
request_decoder (fstat h) = decode_fstat
request_decoder (setstat p a) = decode_setstat
request_decoder (fsetstat h a) = decode_fsetstat
request_decoder (opendir p) = decode_opendir
request_decoder (readdir h) = decode_readdir
request_decoder (remove p) = decode_remove
request_decoder (mkdir p a) = decode_mkdir
request_decoder (rmdir p) = decode_rmdir
request_decoder (realpath p) = decode_realpath
request_decoder (stat p) = decode_stat
request_decoder (rename p q) = decode_rename
request_decoder (readlink p) = decode_readlink
request_decoder (symlink p q) = decode_symlink

pub decoder_of-kind : (r : Request) → decoder_of (request_kind r) ≡ some (request_decoder r)
unfolding decoder_of
decoder_of-kind (init v) = refl
decoder_of-kind (open_file p f a) = refl
decoder_of-kind (close h) = refl
decoder_of-kind (read h o l) = refl
decoder_of-kind (write h o d) = refl
decoder_of-kind (lstat p) = refl
decoder_of-kind (fstat h) = refl
decoder_of-kind (setstat p a) = refl
decoder_of-kind (fsetstat h a) = refl
decoder_of-kind (opendir p) = refl
decoder_of-kind (readdir h) = refl
decoder_of-kind (remove p) = refl
decoder_of-kind (mkdir p a) = refl
decoder_of-kind (rmdir p) = refl
decoder_of-kind (realpath p) = refl
decoder_of-kind (stat p) = refl
decoder_of-kind (rename p q) = refl
decoder_of-kind (readlink p) = refl
decoder_of-kind (symlink p q) = refl

pub Reads-request :
    (r : Request) → RequestFits r → Reads big (request_decoder r) (request_fields r) r
unfolding decode_init decode_close decode_lstat decode_fstat decode_setstat decode_fsetstat
    decode_opendir decode_readdir decode_remove decode_mkdir decode_rmdir decode_realpath
    decode_stat decode_rename decode_readlink decode_symlink
Reads-request (init v) h = Reads-map _ init _ v (Reads-uint big 4 v h)
Reads-request (open_file p f a) (h, k, l) = Reads-open p f a h k l
Reads-request (close p) h = Reads-one close p h
Reads-request (read p o l) (h, k, m) = Reads-read p o l h k m
Reads-request (write p o d) (h, k, m) = Reads-write p o d h k m
Reads-request (lstat p) h = Reads-one lstat p h
Reads-request (fstat p) h = Reads-one fstat p h
Reads-request (setstat p a) (h, k) = Reads-with_attrs setstat p a h k
Reads-request (fsetstat p a) (h, k) = Reads-with_attrs fsetstat p a h k
Reads-request (opendir p) h = Reads-one opendir p h
Reads-request (readdir p) h = Reads-one readdir p h
Reads-request (remove p) h = Reads-one remove p h
Reads-request (mkdir p a) (h, k) = Reads-with_attrs mkdir p a h k
Reads-request (rmdir p) h = Reads-one rmdir p h
Reads-request (realpath p) h = Reads-one realpath p h
Reads-request (stat p) h = Reads-one stat p h
Reads-request (rename p q) (h, k) = Reads-two rename p q h k
Reads-request (readlink p) h = Reads-one readlink p h
Reads-request (symlink p q) (h, k) = Reads-two symlink p q h k
