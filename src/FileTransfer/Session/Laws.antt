-- ===== src/FileTransfer/Session/Laws.antt =====
-- What the session relies on of the libraries, the kernel and the network.
use cs594_dcn_f.Prelude.{ℕ, ◌^◌, ◌≤◌, ◌<◌, ◌≡◌, ◌≢◌, true, List, [], length, take}
use cs594_dcn_f.Effects.{Log}
use cs594_dcn_f.Rdma.{Verbs, Call, Posts, wc_recv, open_file, write_file, minus_one}
use cs594_dcn_f.FileTransfer.Messages.{buffer_size}
use cs594_dcn_f.FileTransfer.Session.{Peers}

-- `read` of a regular file does not fail; it gives no more than is asked for and than there is, and
-- nothing at the end of the file alone.
pub record Reads (v : Verbs) : Type 0 where
  pub at_most : (log : Log Call) (bytes : List ℕ) (limit : ℕ) → v.read_size log bytes limit ≤ limit
  pub of_file :
      (log : Log Call) (bytes : List ℕ) (limit : ℕ) → v.read_size log bytes limit ≤ length bytes
  pub at_end :
      (log : Log Call) (bytes : List ℕ) (limit : ℕ)
      → 0 < limit
      → v.read_size log bytes limit ≡ 0
      → bytes ≡ []

-- `open` and `write` of the server succeed.
pub record Files (v : Verbs) : Type 0 where
  pub opens : (log : Log Call) (name : List ℕ) → v.answer log (open_file name) ≢ minus_one
  pub writes :
      (log : Log Call) (fd : ℕ) (bytes : List ℕ) → v.answer log (write_file fd bytes) ≡ length bytes

pub record IsReliable (n : Peers) : Type 0 where
  pub client_posts : Posts n.client_verbs
  pub client_reads : Reads n.client_verbs
  pub recv_bit : n.client_verbs.recv_bit wc_recv ≡ true
  pub server_posts : Posts n.server_verbs
  pub server_files : Files n.server_verbs
  -- The two sides agree on the network's byte order.
  pub byte_order : (x : ℕ) → x < 2 ^ 32 → n.server_verbs.ntohl (n.client_verbs.htonl x) ≡ x
  -- A write that fits the buffer replaces the start of what it holds.
  pub delivered :
      (old bytes : List ℕ)
      → length bytes ≤ buffer_size
      → take (length bytes) (n.deliver old bytes) ≡ bytes
