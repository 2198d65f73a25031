-- ===== src/Tests/Locks.antt =====
-- A network card that works as the verbs promise, and locks on a memory that is 0 throughout.
use rdma_synchronization.Common.{
  ℕ, ◌<◌, ◌+◌, ◌*◌, ◌/◌, ◌%◌, ◌^◌, ◌≡◌, ◌≢◌, refl, true, false, some, [], ◌∷◌, ◌==◌, if◌then◌else◌,
  arith, inl, get_or, replicate,
}
use rdma_synchronization.Rdma.Request.{Context, WorkRequest, Opcode}
use rdma_synchronization.Rdma.Memory.{Memory, store, copy}
use rdma_synchronization.Rdma.Client.{World, Nic, IsVerbs, Client, ok, Returns}
use rdma_synchronization.Lock.Config.{Config, farm, v2, header, footer}
use rdma_synchronization.Lock.Exclusive
use rdma_synchronization.Lock.Exclusive.{
  ExclusiveLock, get_lock_position, lock_word, generate_proof, version_word,
}
use rdma_synchronization.Lock.Exclusive.FarmUpdate.{farm_unlock_lem}
use rdma_synchronization.Lock.Optimistic.{OptimisticLock}
use rdma_synchronization.Benchmark.{Counters, random_index, write_attempt, run_test}
use rdma_synchronization.Benchmark.Attempts.{returns, write_attempt_returns, run_test_lem}
use rdma_synchronization.Lock.ReaderWriter.{Worker}
use rdma_synchronization.Rdma.Barrier.{rdma_barrier_wait, last_worker_returns}
use rdma_synchronization.Lock.ReaderWriter.System.{
  idle, writing, reading, Request, System, idle_x, request, next_phase, Reach, start, step,
}
use rdma_synchronization.Lock.ReaderWriter.Safety.{writer_excludes}

abbrev pub perform : Opcode → WorkRequest → World → World
perform Opcode.send wr w = w
perform Opcode.write wr w = record w {
  remote = copy (wr.length / 8) w.local wr.addr w.remote wr.remote_addr;
}
perform Opcode.read wr w = record w {
  local = copy (wr.length / 8) w.remote wr.remote_addr w.local wr.addr;
}
perform Opcode.compare_and_swap wr w = record {
  local = store w.local wr.addr (w.remote wr.remote_addr);
  remote =
      if w.remote wr.remote_addr == wr.compare_add
      then store w.remote wr.remote_addr wr.swap
      else w.remote;
}
perform Opcode.fetch_and_add wr w = record {
  local = store w.local wr.addr (w.remote wr.remote_addr);
  remote = store w.remote wr.remote_addr ((w.remote wr.remote_addr + wr.compare_add) % 2 ^ 64);
}

abbrev pub card : Nic
card = record { returned = λ wr. 0; execute = λ wr w. perform wr.opcode wr w; view = λ wr m. m }

pub card-IsVerbs : IsVerbs card
card-IsVerbs = record {
  posted = λ wr. refl;
  cas = λ wr w h. rw h refl;
  faa = λ wr w h. rw h refl;
  read = λ wr w h. rw h refl;
  write = λ wr w h. rw h refl;
}

-- No other client does anything.
abbrev pub quiet : ℕ → Memory → Memory
quiet k m = m

abbrev pub config : Config
config = record { batch_size = 1; memcpy = false; user_buffer = 4096; crc64 = λ s l. s }

abbrev pub ctx : Context
ctx = record { lkey = 1; rkey = 2 }

-- A client with two completions to come.
abbrev pub ready : Client
ready = record {
  world = record { local = λ a. 0; remote = λ a. 0 };
  polls = some (true ∷ []) ∷ some (true ∷ []) ∷ [];
  now = 0;
}

abbrev pub tuple : ExclusiveLock
tuple = record { rctx = ctx; remote_address = 64; lock_buffer = 0; tuple_buffer = 8; bytes = 64 }

abbrev pub reader : OptimisticLock
reader = record {
  rctx = ctx;
  rctx2 = ctx;
  rctx2_mr = false;
  remote_address = 64;
  tuple_buffer = 8;
  rc_buffer = 1024;
  bytes = 64;
  opnum = 0;
}

abbrev none_counted : Counters
none_counted = record { updates = 0; reads = 0; aborts = 0 }

write_attempt_done :
    (c' : Client) × (write_attempt card quiet config 5 v2 footer tuple (random_index 0 3) ready
      ≡ ok tt c')
write_attempt_done =
    write_attempt_returns card quiet config 5 card-IsVerbs v2 tuple (random_index 0 3) ready true []
      (some (true ∷ []) ∷ []) refl (inl (omega arith)) refl

run_test_example :
    run_test card quiet config 5 v2 footer reader tuple 0 50 0 3 none_counted ready
    ≡ ok (record { updates = 1; reads = 0; aborts = 0 }) write_attempt_done.0
run_test_example =
    run_test_lem card quiet config 5 v2 footer reader tuple 0 50 0 3 0 none_counted ready
      write_attempt_done.0 (returns write_attempt_done.1) (omega arith) (omega arith) (omega arith)
      (omega arith)

-- The client's copy of a tuple that it has locked, with the lock in the header.
abbrev holding : Client
holding = record ready { world = record ready.world { local = store (λ a. 0) 16 1 } }

holding_heads : (j : ℕ) → j < 8 → j % 8 ≡ 0 → holding.world.local (8 + 8 * j) ≡ 0
holding_heads j lt e = ground arith

farm_unlock_example :
    Returns
      (Exclusive.unlock card quiet config farm header tuple holding)
      (λ c'. c'.world.remote (64 + 8 * 0) ≡ 1)
farm_unlock_example =
    farm_unlock_lem card card-IsVerbs quiet config tuple 0 holding holding_heads header 0 refl
      (omega arith) refl (λ m j h. refl)

abbrev worker : Worker
worker = record { rctx = ctx; old = 8; tuple_size = 64 }

-- Two clients, the first of which has locked to write.
abbrev free_system : System
free_system = record { word = 0; phases = replicate 2 idle }

abbrev one_writes : System
one_writes = request free_system 0 Request.x_lock

one_writes-Reach : Reach 2 one_writes
one_writes-Reach =
    step free_system 0 Request.x_lock (start free_system refl refl) (omega arith) idle_x

writer_excludes_example :
    (get_or one_writes.phases 1 idle ≢ writing) × (get_or one_writes.phases 1 idle ≢ reading)
unfolding request next_phase
writer_excludes_example =
    writer_excludes 2 one_writes 0 1 (omega arith) one_writes-Reach (omega arith) (omega arith)
      (λ e. absurd (omega arith)) refl

last_worker_example :
    Returns
      (rdma_barrier_wait card quiet 2 1 64 1 8 ctx ready)
      (λ c'. (c'.now ≡ 0 + 2) × (c'.world.remote 64 ≡ 1 * 1))
last_worker_example =
    last_worker_returns card card-IsVerbs quiet 1 64 1 8 ctx ready [] [] [] 0 refl refl
      (omega arith) (λ m. refl) (λ m. refl)
