-- ===== src/Service/Lifecycle.antt =====
-- The constructor and the destructor of `socket_service`.
use mathlib.Core.Option
use slicksocket.Base.{
  ℕ, ◌≡◌, refl, Bool, true, false, Option, none, some, List, [], ◌∷◌, arith, length, if◌then◌else◌,
  IsPowerOfTwo,
}
use slicksocket.Pool.{Pool}
use slicksocket.Pool
use slicksocket.Pool.Discipline
use slicksocket.Pool.Discipline.Sound as PoolSound
use slicksocket.Ring.{Ring}
use slicksocket.Ring
use slicksocket.Ring.Threads.{System, idle}
use slicksocket.Ring.Threads
use slicksocket.Ring.Threads.Sound as RingSound
use slicksocket.Service.{Service, Infos}

-- QUEUE_SIZE.
abbrev pub queue_size : ℕ
queue_size = 65536

-- `lws_context_creation_info`, as far as it depends on the service.
abbrev pub ca_filepath : List ℕ → Option (List ℕ)
ca_filepath [] = none
ca_filepath (c ∷ cs) = some (c ∷ cs)

-- The members, once the pool and the queue are made and `lws_create_context` gave a context or not.
abbrev assembled : Bool → Infos → List ℕ → Bool → Pool → Ring ℕ → Service
assembled context infos ca_file_path is_global pool queue = record {
  has_context = context;
  cursor = 0;
  run = true;
  thread = context;
  request_pool = pool;
  request_queue = queue;
  ca_file_path = ca_file_path;
  is_global = is_global;
  requests = [];
  infos = infos;
}

-- The constructor. `create_context` tells whether `lws_create_context` gives a context, `base` and
-- `infos` are the requests that the pool makes, and `memory` is that of the queue.
pub construct :
    Bool → (Option (List ℕ) → Bool) → ℕ → Infos → List ℕ → List ℕ → Bool → Option Service
construct debug create_context base infos memory ca_file_path is_global =
    Option.bind (Pool.create debug base queue_size) λ pool.
      Option.bind (Ring.create debug memory queue_size) λ queue. some (
        assembled (create_context (ca_filepath ca_file_path)) infos ca_file_path is_global pool
          queue)

-- What the destructor does with the thread and the context.
pub data Closing : Type 0 where
  detaches joins destroys_context : Closing

pub destroy : Service → Service × List Closing
destroy s = (
  record s { run = false; thread = false; has_context = false },
  if s.thread
      then (if s.is_global then detaches else joins)
        ∷ (if s.has_context then destroys_context ∷ [] else [])
      else (if s.has_context then destroys_context ∷ [] else []),
)

-- What holds of a service that has not begun to serve.
pub record IsFresh (s : Service) : Type 0 where
  pub queue : Ring.Threads.IsSound (record { ring = s.request_queue; phase = λ i. idle; log = [] })
  pub pool : Pool.Discipline.IsSound s.request_pool []
  pub at_start : s.cursor ≡ 0
  pub none_yet : s.requests ≡ []
  pub works : s.thread ≡ s.has_context

-- The constructor, over the memory of its queue, gives a service in any build: its queue and its pool
-- are as empty as they have to be, and its thread runs just when libwebsockets gave a context.
pub construct-IsFresh :
    (debug : Bool) (create_context : Option (List ℕ) → Bool) (base : ℕ) (infos : Infos)
    (memory ca_file_path : List ℕ) (is_global : Bool)
    → length memory ≡ queue_size
    → (s : Service) × (construct debug create_context base infos memory ca_file_path is_global
        ≡ some s)
      × IsFresh s
unfolding construct Option.bind
construct-IsFresh debug create_context base infos memory ca_file_path is_global len =
    let power : IsPowerOfTwo queue_size = record { exponent = 16; is_power = refl } in
    let (p, made_pool, pool) =
      PoolSound.create-some_IsSound debug base queue_size power (omega arith) in
    let (q, made_queue, queue) = RingSound.create-some_IsSound debug memory queue_size power len in
    (
      assembled (create_context (ca_filepath ca_file_path)) infos ca_file_path is_global p q,
      rw (made_pool, made_queue) refl,
      record { queue = queue; pool = pool; at_start = refl; none_yet = refl; works = refl },
    )
