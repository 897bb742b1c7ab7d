-- ===== src/Server/Arguments.antt =====
-- `getargs` of HW3/server.c, and what `startServer` allocates for the dropped contents.
use Prim.Native.String.{String, len}
use mathlib.Core.Path.{subst}
use operating_system_whw.MessageQueue.Types.Names.{policy_name, string_to_policy-name}
use operating_system_whw.Common.{
  ltb-true, ℕ, ◌/◌, ◌<◌, ◌≡◌, ◌≢◌, refl, ◌∙◌, sym, true, List, ◌∷◌, ltb, if◌then◌else◌, length,
  arith, ℤ,
}
use operating_system_whw.Heap.{Content}
use operating_system_whw.MessageQueue.Types.{
  MessageQueue, SchedPolicy, invalid, block, drop_tail, drop_head, drop_random, string_to_policy,
}
use operating_system_whw.MessageQueue.Random.Fill.{Appears}
use operating_system_whw.MessageQueue.Put.{Supply}
use operating_system_whw.MessageQueue.Put.Meets.{Provides}
use operating_system_whw.Server.{drop_size}

-- The settings of the server.
pub record Settings : Type 0 where
  pub port : ℤ
  pub thread_pool_size : ℤ
  pub queue_size : ℤ
  pub sched_alg : String

-- SCHED_ALG_MAX_SIZE
abbrev pub sched_alg_max_size : ℕ
sched_alg_max_size = 7

-- `usage` is `exit(1)` with a message; `overflow` is a `strcpy` past the end of the buffer.
pub data Arguments : Type 0 where
  usage overflow : Arguments
  settings : Settings → Arguments

length-policy_name : (policy : SchedPolicy) → len (policy_name policy) < sched_alg_max_size
length-policy_name invalid = omega arith
length-policy_name block = omega arith
length-policy_name drop_tail = omega arith
length-policy_name drop_head = omega arith
length-policy_name drop_random = omega arith

module _ (atoi : String → ℤ) where
  -- `argv` is the list from `argv[0]` on, of `argc` texts.
  unfoldable pub getargs : (argv : List String) → Arguments
  getargs (_ ∷ (port ∷ (pool ∷ (queue ∷ (alg ∷ _))))) =
      if ltb (len alg) sched_alg_max_size
      then settings (record {
        port = atoi port;
        thread_pool_size = atoi pool;
        queue_size = atoi queue;
        sched_alg = alg;
      })
      else overflow
  getargs _ = usage

  -- Five arguments or more, of which the fifth is the name of a policy: the name fits in the buffer,
  -- and the settings are the numbers of the first three and that name.
  pub getargs-policy :
      (program port pool queue alg : String) (more : List String)
      → string_to_policy alg ≢ invalid
      → getargs (program ∷ (port ∷ (pool ∷ (queue ∷ (alg ∷ more)))))
        ≡ settings (record {
          port = atoi port;
          thread_pool_size = atoi pool;
          queue_size = atoi queue;
          sched_alg = alg;
        })
  unfolding getargs
  getargs-policy program port pool queue alg more ne =
      let short : len alg < sched_alg_max_size =
        subst (λ t. len t < sched_alg_max_size) (sym (string_to_policy-name alg ne))
          (length-policy_name (string_to_policy alg)) in
      rw (ltb-true short)

drop_size-one :
    (sched_algo : String) (n : ℕ) (policy : SchedPolicy)
    → string_to_policy sched_algo ≡ policy
    → policy ≢ drop_random
    → drop_size sched_algo n ≡ 1
unfolding drop_size
drop_size-one a n invalid e ne = rw (e, drop_size)
drop_size-one a n block e ne = rw (e, drop_size)
drop_size-one a n drop_tail e ne = rw (e, drop_size)
drop_size-one a n drop_head e ne = rw (e, drop_size)
drop_size-one a n drop_random e ne = absurd (ne refl)

-- The array that `startServer` allocates has room for what `MQPut` drops under its policy.
pub drop_size-Provides :
    (sched_algo : String) (mq : MessageQueue) (s : Supply) (contents : List Content)
    → mq.sched_policy ≡ string_to_policy sched_algo
    → length contents ≡ drop_size sched_algo mq.capacity
    → s.indexes ≡ true
    → ((i : ℕ) → i < mq.capacity → Appears mq.capacity i s.draws)
    → Provides mq s (record { contents = contents; amount = 0 })
unfolding drop_size
drop_size-Provides sched_algo mq s contents policy size memory draws = record {
  none_yet = refl;
  one = λ ne. omega (
    arith,
    size,
    drop_size-one sched_algo mq.capacity (string_to_policy sched_algo) refl (λ e. ne (policy ∙ e)),
  );
  quarter = λ random.
      let named : string_to_policy sched_algo ≡ drop_random = sym policy ∙ random in
      let quarter : drop_size sched_algo mq.capacity ≡ mq.capacity / 4 = rw (named, drop_size) in
      omega (arith, size, quarter);
  memory = λ random. memory;
  draws = λ random. draws;
}
