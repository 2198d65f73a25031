-- ===== src/Rdma/Request.antt =====
-- The functions of backend/nam/rdma/CommunicationManager.hpp that fill in a work request. What
-- `ibv_post_send` gets is a value here; what the network card does with it is a parameter elsewhere.
use rdma_synchronization.Common.{ℕ, Bool, true, false, List, [], ◌∷◌, leb}

pub data Opcode : Type 0 where
  send write read compare_and_swap fetch_and_add : Opcode

-- `ibv_send_wr` with its one `ibv_sge`; a field that a function leaves alone is 0.
pub record WorkRequest : Type 0 where
  pub opcode : Opcode
  pub signaled : Bool
  pub fenced : Bool
  pub inlined : Bool
  pub addr : ℕ
  pub length : ℕ
  pub lkey : ℕ
  pub rkey : ℕ
  pub remote_addr : ℕ
  pub compare_add : ℕ
  pub swap : ℕ
  pub wr_id : ℕ

-- What the requests need of an `RdmaContext`: `mr->lkey` and `rkey`.
pub record Context : Type 0 where
  pub lkey : ℕ
  pub rkey : ℕ

abbrev pub inline_size : ℕ
inline_size = 64

-- `completion`: `signaled` is true.
pub post_send : ℕ → ℕ → Context → Bool → WorkRequest
post_send mem_addr size context wc = record {
  opcode = Opcode.send;
  signaled = wc;
  fenced = false;
  inlined = leb size inline_size;
  addr = mem_addr;
  length = size;
  lkey = context.lkey;
  rkey = 0;
  remote_addr = 0;
  compare_add = 0;
  swap = 0;
  wr_id = 0;
}

unfoldable pub post_fetch_add : ℕ → ℕ → Context → Bool → ℕ → Bool → WorkRequest
post_fetch_add to_add mem_addr context wc remote_offset need_fence = record {
  opcode = Opcode.fetch_and_add;
  signaled = wc;
  fenced = need_fence;
  inlined = false;
  addr = mem_addr;
  length = 8;
  lkey = context.lkey;
  rkey = context.rkey;
  remote_addr = remote_offset;
  compare_add = to_add;
  swap = 0;
  wr_id = 0;
}

unfoldable pub post_compare_swap : ℕ → ℕ → ℕ → Context → Bool → ℕ → WorkRequest
post_compare_swap expected desired mem_addr context wc remote_offset = record {
  opcode = Opcode.compare_and_swap;
  signaled = wc;
  fenced = false;
  inlined = false;
  addr = mem_addr;
  length = 8;
  lkey = context.lkey;
  rkey = context.rkey;
  remote_addr = remote_offset;
  compare_add = expected;
  swap = desired;
  wr_id = 0;
}

unfoldable pub post_write : ℕ → Context → Bool → ℕ → ℕ → WorkRequest
post_write mem_addr context wc remote_offset bytes = record {
  opcode = Opcode.write;
  signaled = wc;
  fenced = false;
  inlined = leb bytes inline_size;
  addr = mem_addr;
  length = bytes;
  lkey = context.lkey;
  rkey = context.rkey;
  remote_addr = remote_offset;
  compare_add = 0;
  swap = 0;
  wr_id = 0;
}

-- `postRead` with all its arguments; `postReadFenced` passes true for the fence.
unfoldable pub read_request : ℕ → Context → Bool → ℕ → ℕ → ℕ → Bool → WorkRequest
read_request mem_addr context wc remote_offset bytes wc_id need_fence = record {
  opcode = Opcode.read;
  signaled = wc;
  fenced = need_fence;
  inlined = false;
  addr = mem_addr;
  length = bytes;
  lkey = context.lkey;
  rkey = context.rkey;
  remote_addr = remote_offset;
  compare_add = 0;
  swap = 0;
  wr_id = wc_id;
}

unfoldable pub post_read : ℕ → Context → Bool → ℕ → ℕ → ℕ → WorkRequest
unfolding read_request
post_read mem_addr context wc remote_offset bytes wc_id =
    read_request mem_addr context wc remote_offset bytes wc_id false

unfoldable pub post_read_fenced : ℕ → Context → Bool → ℕ → ℕ → ℕ → WorkRequest
unfolding read_request
post_read_fenced mem_addr context wc remote_offset bytes wc_id =
    read_request mem_addr context wc remote_offset bytes wc_id true

-- `RDMABatchElement`
pub record BatchElement : Type 0 where
  pub mem_addr : ℕ
  pub size : ℕ
  pub remote_offset : ℕ

-- The chain of requests of `postWriteBatch`: only the last one is signaled.
pub post_write_batch : Context → Bool → List BatchElement → List WorkRequest
unfolding post_write
post_write_batch context wc [] = []
post_write_batch context wc (e ∷ []) = post_write e.mem_addr context wc e.remote_offset e.size ∷ []
post_write_batch context wc (e ∷ f ∷ rest) =
    post_write e.mem_addr context false e.remote_offset e.size
    ∷ post_write_batch context wc (f ∷ rest)

-- `ibv_recv_wr` with its one `ibv_sge`, as `postReceive` fills it in.
pub record ReceiveRequest : Type 0 where
  pub addr : ℕ
  pub length : ℕ
  pub lkey : ℕ
  pub wr_id : ℕ

pub post_receive : ℕ → ℕ → Context → ReceiveRequest
post_receive mem_addr size context = record {
  addr = mem_addr;
  length = size;
  lkey = context.lkey;
  wr_id = 1;
}
