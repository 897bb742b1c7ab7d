-- ===== src/MessageQueue/Types/Names.antt =====
-- The names that `stringToPolicy` knows.
use Prim.Native.String.{String}
use text.Mathlib.Text.{◌==◌ as str_eq}
use text.Mathlib.TextEquality.{eq_iff}
use operating_system_whw.Common.{◌≡◌, ◌≢◌, true, inl, inr, Bool-cases}
use operating_system_whw.MessageQueue.Types.{
  SchedPolicy, invalid, block, drop_tail, drop_head, drop_random, string_to_policy,
}

-- The name of each policy but INVALID.
abbrev pub policy_name : SchedPolicy → String
policy_name invalid = ""
policy_name block = "block"
policy_name drop_tail = "dt"
policy_name drop_head = "dh"
policy_name drop_random = "random"

text_of : (s t : String) → str_eq s t ≡ true → s ≡ t
text_of s t e = (eq_iff s t).0 e

-- A text for which `stringToPolicy` does not answer INVALID is the name of the policy that it
-- answers.
pub string_to_policy-name :
    (sched_algo : String)
    → string_to_policy sched_algo ≢ invalid
    → sched_algo ≡ policy_name (string_to_policy sched_algo)
unfolding string_to_policy
string_to_policy-name a ne = elim (Bool-cases (str_eq a "block")) [
  | inl e ↦ rw (e, text_of a "block" e)
  | inr n ↦ elim (Bool-cases (str_eq a "dt")) [
    | inl e ↦ rw (n, e, text_of a "dt" e)
    | inr m ↦ elim (Bool-cases (str_eq a "dh")) [
      | inl e ↦ rw (n, m, e, text_of a "dh" e)
      | inr k ↦ elim (Bool-cases (str_eq a "random")) [
        | inl e ↦ rw (n, m, k, e, text_of a "random" e)
        | inr l ↦ absurd (ne (rw (n, m, k, l)))
      ]
    ]
  ]
]
