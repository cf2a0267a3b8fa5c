-- ===== src/Server/Dispatch.antt =====
-- `handlePacket` of pkg/sftp/filesystem.go, and `ServeSftp` of pkg/sftp/sshfs.go, which reads packets
-- from a connection, has them handled and writes the answers back.
use tinyrange.Prelude.{ℕ, zero, suc, String, Option, none, some, List}
use tinyrange.Wire.Reader.{IoError, eof, unexpected_eof, short_write}
use tinyrange.Wire.Writer.{Sink}
use tinyrange.Sftp.Packets.{
  Request, init, open_file, close, read, write, remove, rename, mkdir, rmdir, opendir, readdir,
  stat, lstat, fstat, setstat, fsetstat, readlink, symlink, realpath,
}
use tinyrange.Sftp.Decode.{
  Decoded, decoded, unknown_packet, failed, decode, RawRead, packet, read_failed,
  panicked as raw_panic, read_raw_packet,
}
use tinyrange.Sftp.Encode.{write_packet}
use tinyrange.Server.State.{Server, Env, Outcome, reply, refused, panicked, unfinished}
use tinyrange.Server.Handles.{
  pkt_init, pkt_close, pkt_read, pkt_write, pkt_fstat, pkt_fsetstat, pkt_readdir,
}
use tinyrange.Server.Paths.{
  pkt_open, pkt_stat, pkt_opendir, pkt_mkdir, pkt_setstat, pkt_rename, pkt_symlink, pkt_readlink,
  pkt_remove, pkt_realpath,
}

-- How serving ends: at the end of the input, by an error, or by a panic; `handling` is a handler that
-- did not end.
pub data Served : Type 0 where
  closed stopped crashed handling : Served

pub record Session : Type 0 where
  pub result : Served
  pub server : Server
  pub sink : Sink

module _ (text_of : List ℕ → String) (links : ℕ) where
  -- `handlePacket`
  unfoldable pub handle_packet : Env → Request → Server → Outcome
  handle_packet env (init v) s = pkt_init v s
  handle_packet env (open_file p flags attrs) s = pkt_open text_of links env p flags attrs s
  handle_packet env (close h) s = pkt_close h s
  handle_packet env (read h offset len) s = pkt_read h offset len s
  handle_packet env (write h offset bytes) s = pkt_write h offset bytes s
  handle_packet env (remove p) s = pkt_remove text_of links p s
  handle_packet env (rename from to) s = pkt_rename text_of links from to s
  handle_packet env (mkdir p attrs) s = pkt_mkdir text_of links env p attrs s
  handle_packet env (rmdir p) s = pkt_remove text_of links p s
  handle_packet env (opendir p) s = pkt_opendir text_of links env p s
  handle_packet env (readdir h) s = pkt_readdir h s
  handle_packet env (stat p) s = pkt_stat text_of links p s
  handle_packet env (lstat p) s = pkt_stat text_of links p s
  handle_packet env (fstat h) s = pkt_fstat h s
  handle_packet env (setstat p attrs) s = pkt_setstat text_of links p attrs s
  handle_packet env (fsetstat h attrs) s = pkt_fsetstat h attrs s
  handle_packet env (readlink p) s = pkt_readlink text_of links p s
  handle_packet env (symlink path target) s = pkt_symlink text_of links path target s
  handle_packet env (realpath p) s = pkt_realpath p s

  -- what follows `writePacket`
  abbrev pub after_write : (Server → Sink → Session) → Server → Option IoError × Sink → Session
  after_write next s (some e, sink) = record { result = stopped; server = s; sink = sink }
  after_write next s (none, sink) = next s sink

  -- what follows `handlePacket`: nothing is sent for an error
  abbrev pub after_handle : (Server → Sink → Session) → ℕ → Sink → Outcome → Session
  after_handle next id sink (reply r, s) = after_write next s (write_packet id r sink)
  after_handle next id sink (refused e, s) = next s sink
  after_handle next id sink (panicked, s) = record { result = crashed; server = s; sink = sink }
  after_handle next id sink (unfinished, s) = record { result = handling; server = s; sink = sink }

  -- what follows `decode`
  abbrev pub after_decode : (Server → Sink → Session) → Env → Server → Sink → Decoded → Session
  after_decode next env s sink (decoded r id) = after_handle next id sink (handle_packet env r s)
  after_decode next env s sink (unknown_packet k) = record {
    result = stopped;
    server = s;
    sink = sink;
  }
  after_decode next env s sink (failed e) = record { result = stopped; server = s; sink = sink }

  -- `errors.Is(err, io.EOF)`
  abbrev pub read_error : IoError → Served
  read_error eof = closed
  read_error unexpected_eof = stopped
  read_error short_write = stopped

  -- what follows `readRawPacket`
  abbrev pub after_read :
      (List ℕ → Server → Sink → Session) → Env → Server → Sink → RawRead → Session
  after_read next env s sink (packet p rest) = after_decode (next rest) env s sink (decode p)
  after_read next env s sink (read_failed e) = record {
    result = read_error e;
    server = s;
    sink = sink;
  }
  after_read next env s sink raw_panic = record { result = crashed; server = s; sink = sink }

  -- `ServeSftp`, on what the client sent and for at most so many packets; `env` is what each packet
  -- takes from outside.
  unfoldable pub serve_sftp : (ℕ → Env) → ℕ → List ℕ → Server → Sink → Session
  serve_sftp env zero input s sink = record { result = handling; server = s; sink = sink }
  serve_sftp env (suc n) input s sink =
      after_read (λ rest s' sink'. serve_sftp env n rest s' sink') (env n) s sink
        (read_raw_packet input)
