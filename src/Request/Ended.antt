-- ===== src/Request/Ended.antt =====
-- HW3/request.c: requests that `requestHandle` answers.
use Prim.Native.String.{String}
use operating_system_whw.Common.{
  if◌then◌else◌, ℕ, ◌≡◌, refl, Bool-cases, inl, inr, true, some, none, Option, List, ◌⊎◌,
}
use operating_system_whw.Heap.{MetaData}
use operating_system_whw.Request.{
  Request, Outcome, is_get, request_read_headers, request_handle, serve, request_parse_uri, refuse,
}

-- The outcome that a request comes to once its headers have been read, as a reference.
unfoldable pub request_outcome : Request → MetaData → Outcome
request_outcome r m =
    if is_get r.method
    then serve (request_parse_uri r.uri r.garbage) r.stat m
    else refuse r.method "501" "Not Implemented" "OS-HW3 Server does not implement this method" m

-- The loop over the headers ends within `fuel` tests, where the code comes to it.
abbrev pub HeadersEnd : (fuel : ℕ) → Request → Type 0
HeadersEnd fuel r =
    is_get r.method ≡ true
    → (left : List String) × (request_read_headers fuel r.buffer r.lines ≡ some left)

-- The method is GET and the loop over the headers has not ended after `fuel` tests.
abbrev pub Unfinished : (fuel : ℕ) → Request → Type 0
Unfinished fuel r = (is_get r.method ≡ true) × (request_read_headers fuel r.buffer r.lines ≡ none)

-- There is an outcome as described, or none since the headers have not ended.
abbrev pub Answered : (Outcome → Type 0) → (fuel : ℕ) → Request → MetaData → Type 0
Answered post fuel r m =
    ((out : Outcome) × (request_handle fuel r m ≡ some out) × post out)
    ⊎ (Unfinished fuel r × (request_handle fuel r m ≡ none))

pub request_handle-ended :
    (fuel : ℕ) (r : Request) (m : MetaData)
    → HeadersEnd fuel r
    → request_handle fuel r m ≡ some (request_outcome r m)
unfolding request_handle request_outcome
request_handle-ended fuel r m ends = elim (Bool-cases (is_get r.method)) [
  | inl e ↦ rw (e, (ends e).1) refl
  | inr e ↦ rw e refl
]

read_cases : (o : Option (List String)) → ((left : List String) × (o ≡ some left)) ⊎ (o ≡ none)
read_cases none = inr refl
read_cases (some left) = inl (left, refl)

headers_cases : (fuel : ℕ) (r : Request) → HeadersEnd fuel r ⊎ Unfinished fuel r
headers_cases fuel r = elim (Bool-cases (is_get r.method)) [
  | inl get ↦ elim (read_cases (request_read_headers fuel r.buffer r.lines)) [
    | inl (left, e) ↦ inl (λ _. (left, e))
    | inr e ↦ inr (get, e)
  ]
  | inr other ↦ inl (λ get. absurd (cc))
]

request_handle-Unfinished :
    (fuel : ℕ) (r : Request) (m : MetaData) → Unfinished fuel r → request_handle fuel r m ≡ none
unfolding request_handle
request_handle-Unfinished fuel r m (get, e) = rw (get, e) refl

-- The headers end, or there is no answer.
pub ended_cases :
    (fuel : ℕ) (r : Request) (m : MetaData) → HeadersEnd fuel r ⊎ (request_handle fuel r m ≡ none)
ended_cases fuel r m = elim (headers_cases fuel r) [
  | inl ends ↦ inl ends
  | inr stuck ↦ inr (request_handle-Unfinished fuel r m stuck)
]

pub request_handle-Answered :
    (post : Outcome → Type 0) (fuel : ℕ) (r : Request) (m : MetaData)
    → post (request_outcome r m)
    → Answered post fuel r m
request_handle-Answered post fuel r m h = elim (headers_cases fuel r) [
  | inl ends ↦ inl (request_outcome r m, request_handle-ended fuel r m ends, h)
  | inr stuck ↦ inr (stuck, request_handle-Unfinished fuel r m stuck)
]
