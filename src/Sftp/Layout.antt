-- ===== src/Sftp/Layout.antt =====
-- The layout of the packets on the wire, as the SFTP protocol (draft-ietf-secsh-filexfer-02) has it:
-- what a client sends for a request, and what it expects of a response; and what it is sent, which
-- differs in the attributes of a listing.
use tinyrange.Prelude.{
  ℕ, ◌+◌, ◌^◌, ◌<◌, ◌≡◌, List, [], ◌∷◌, ◌++◌, Bool, true, false, if◌then◌else◌, length, ◌==◌,
}
use tinyrange.Wire.Numbers.{big, put_uint}
use tinyrange.Sftp.Packets.{
  Text, Attrs, has_flag, attr_size, attr_uidgid, attr_permissions, attr_acmodtime, Request, init,
  open_file, close, read, write, remove, rename, mkdir, rmdir, opendir, readdir, stat, lstat, fstat,
  setstat, fsetstat, readlink, symlink, realpath, Name, Response, version, attributes, handle,
  names, contents, status,
}

abbrev pub u32 : ℕ → List ℕ
u32 v = put_uint big 4 v

abbrev pub u64 : ℕ → List ℕ
u64 v = put_uint big 8 v

abbrev pub text : Text → List ℕ
text s = u32 (length s) ++ s

abbrev pub when : Bool → List ℕ → List ℕ
when b l = if b then l else []

-- the fields whose flag is set
abbrev pub attrs_bytes : Attrs → List ℕ
attrs_bytes a =
    u32 a.flags
    ++ (when (has_flag a.flags attr_size) (u64 a.size)
        ++ (when (has_flag a.flags attr_uidgid) (u32 a.uid)
            ++ (when (has_flag a.flags attr_uidgid) (u32 a.gid)
                ++ (when (has_flag a.flags attr_permissions) (u32 a.permissions)
                    ++ (when (has_flag a.flags attr_acmodtime) (u32 a.atime)
                        ++ when (has_flag a.flags attr_acmodtime) (u32 a.mtime))))))

-- The numbers fit their fields, and a field whose flag is not set is 0.
abbrev pub FieldFits : Bool → ℕ → ℕ → Type 0
FieldFits true n v = v < 256 ^ n
FieldFits false n v = v ≡ 0

pub record AttrsFit (a : Attrs) : Type 0 where
  pub flags_fit : a.flags < 256 ^ 4
  pub size_fits : FieldFits (has_flag a.flags attr_size) 8 a.size
  pub uid_fits : FieldFits (has_flag a.flags attr_uidgid) 4 a.uid
  pub gid_fits : FieldFits (has_flag a.flags attr_uidgid) 4 a.gid
  pub permissions_fit : FieldFits (has_flag a.flags attr_permissions) 4 a.permissions
  pub atime_fits : FieldFits (has_flag a.flags attr_acmodtime) 4 a.atime
  pub mtime_fits : FieldFits (has_flag a.flags attr_acmodtime) 4 a.mtime

abbrev pub TextFits : Text → Type 0
TextFits s = length s < 256 ^ 4

abbrev pub request_kind : Request → ℕ
request_kind (init v) = 1
request_kind (open_file p f a) = 3
request_kind (close h) = 4
request_kind (read h o l) = 5
request_kind (write h o d) = 6
request_kind (lstat p) = 7
request_kind (fstat h) = 8
request_kind (setstat p a) = 9
request_kind (fsetstat h a) = 10
request_kind (opendir p) = 11
request_kind (readdir h) = 12
request_kind (remove p) = 13
request_kind (mkdir p a) = 14
request_kind (rmdir p) = 15
request_kind (realpath p) = 16
request_kind (stat p) = 17
request_kind (rename p q) = 18
request_kind (readlink p) = 19
request_kind (symlink p q) = 20

abbrev pub request_fields : Request → List ℕ
request_fields (init v) = u32 v
request_fields (open_file p f a) = text p ++ (u32 f ++ attrs_bytes a)
request_fields (close h) = text h
request_fields (read h o l) = text h ++ (u64 o ++ u32 l)
request_fields (write h o d) = text h ++ (u64 o ++ text d)
request_fields (lstat p) = text p
request_fields (fstat h) = text h
request_fields (setstat p a) = text p ++ attrs_bytes a
request_fields (fsetstat h a) = text h ++ attrs_bytes a
request_fields (opendir p) = text p
request_fields (readdir h) = text h
request_fields (remove p) = text p
request_fields (mkdir p a) = text p ++ attrs_bytes a
request_fields (rmdir p) = text p
request_fields (realpath p) = text p
request_fields (stat p) = text p
request_fields (rename p q) = text p ++ text q
request_fields (readlink p) = text p
request_fields (symlink p q) = text p ++ text q

abbrev pub RequestFits : Request → Type 0
RequestFits (init v) = v < 256 ^ 4
RequestFits (open_file p f a) = TextFits p × (f < 256 ^ 4) × AttrsFit a
RequestFits (close h) = TextFits h
RequestFits (read h o l) = TextFits h × (o < 256 ^ 8) × (l < 256 ^ 4)
RequestFits (write h o d) = TextFits h × (o < 256 ^ 8) × TextFits d
RequestFits (lstat p) = TextFits p
RequestFits (fstat h) = TextFits h
RequestFits (setstat p a) = TextFits p × AttrsFit a
RequestFits (fsetstat h a) = TextFits h × AttrsFit a
RequestFits (opendir p) = TextFits p
RequestFits (readdir h) = TextFits h
RequestFits (remove p) = TextFits p
RequestFits (mkdir p a) = TextFits p × AttrsFit a
RequestFits (rmdir p) = TextFits p
RequestFits (realpath p) = TextFits p
RequestFits (stat p) = TextFits p
RequestFits (rename p q) = TextFits p × TextFits q
RequestFits (readlink p) = TextFits p
RequestFits (symlink p q) = TextFits p × TextFits q

-- the payload behind the kind: the id, which an init packet lacks, and the fields
abbrev pub request_payload : Request → ℕ → List ℕ
request_payload r id = (if request_kind r == 1 then [] else u32 id) ++ request_fields r

-- the id that the server answers with
abbrev pub reply_id : Request → ℕ → ℕ
reply_id r id = if request_kind r == 1 then 0 else id

-- every flag is set
pub record HasAll (a : Attrs) : Type 0 where
  pub has_size : has_flag a.flags attr_size ≡ true
  pub has_ids : has_flag a.flags attr_uidgid ≡ true
  pub has_permissions : has_flag a.flags attr_permissions ≡ true
  pub has_times : has_flag a.flags attr_acmodtime ≡ true

abbrev pub names_bytes : List Name → List ℕ
names_bytes [] = []
names_bytes (n ∷ ns) =
    (text n.filename ++ (text n.longname ++ attrs_bytes n.attrs)) ++ names_bytes ns

abbrev pub NamesFit : List Name → Type 0
NamesFit [] = Unit
NamesFit (n ∷ ns) = TextFits n.filename × TextFits n.longname × HasAll n.attrs × NamesFit ns

abbrev pub response_fields : Response → List ℕ
response_fields (version v) = u32 v
response_fields (attributes a) = attrs_bytes a
response_fields (handle h) = text h
response_fields (names ns) = u32 (length ns) ++ names_bytes ns
response_fields (contents d) = text d
response_fields (status code message language) = u32 code ++ (text message ++ text language)

-- The lengths fit their fields, and every name of a listing has all attributes.
abbrev pub ResponseFits : Response → Type 0
ResponseFits (version v) = Unit
ResponseFits (attributes a) = Unit
ResponseFits (handle h) = TextFits h
ResponseFits (names ns) = (length ns < 2 ^ 32) × NamesFit ns
ResponseFits (contents d) = TextFits d
ResponseFits (status code message language) = TextFits message × TextFits language

-- the attributes as a listing has them on the wire: every field, flagged or not
abbrev pub whole_attrs : Attrs → List ℕ
whole_attrs a =
    u32 a.flags
    ++ (u64 a.size
        ++ (u32 a.uid ++ (u32 a.gid ++ (u32 a.permissions ++ (u32 a.atime ++ u32 a.mtime)))))

abbrev pub sent_names : List Name → List ℕ
sent_names [] = []
sent_names (n ∷ ns) = (text n.filename ++ (text n.longname ++ whole_attrs n.attrs)) ++ sent_names ns

-- what a client is sent for a response, which is what the protocol asks for but in a listing
abbrev pub sent_fields : Response → List ℕ
sent_fields (version v) = u32 v
sent_fields (attributes a) = attrs_bytes a
sent_fields (handle h) = text h
sent_fields (names ns) = u32 (length ns) ++ sent_names ns
sent_fields (contents d) = text d
sent_fields (status code message language) = u32 code ++ (text message ++ text language)

abbrev pub NamesSized : List Name → Type 0
NamesSized [] = Unit
NamesSized (n ∷ ns) = TextFits n.filename × TextFits n.longname × NamesSized ns

-- The lengths fit their fields.
abbrev pub ResponseSized : Response → Type 0
ResponseSized (version v) = Unit
ResponseSized (attributes a) = Unit
ResponseSized (handle h) = TextFits h
ResponseSized (names ns) = (length ns < 2 ^ 32) × NamesSized ns
ResponseSized (contents d) = TextFits d
ResponseSized (status code message language) = TextFits message × TextFits language

abbrev pub response_kind : Response → ℕ
response_kind (version v) = 2
response_kind (status code message language) = 101
response_kind (handle h) = 102
response_kind (contents d) = 103
response_kind (names ns) = 104
response_kind (attributes a) = 105

abbrev pub response_payload : Response → ℕ → List ℕ
response_payload p id = (if response_kind p == 2 then [] else u32 id) ++ response_fields p

abbrev pub sent_payload : Response → ℕ → List ℕ
sent_payload p id = (if response_kind p == 2 then [] else u32 id) ++ sent_fields p

-- a packet on the connection: the length of the rest, the kind and the payload
abbrev pub frame : ℕ → List ℕ → List ℕ
frame kind payload = u32 (length payload + 1) ++ kind ∷ payload
