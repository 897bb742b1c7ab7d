-- ===== src/Server/Worker/Counts.antt =====
-- The counters of a worker, and those in the meta data that it sends with a response.
use operating_system_whw.Common.{ℕ, ◌+◌, ◌≡◌, refl, inl, inr}
use operating_system_whw.Heap.{TimeVal, MetaData}
use operating_system_whw.Request.{
  Request, Outcome, Response, error, serve_static, serve_dynamic, Headers, headers_of,
}
use operating_system_whw.Request.Ended.{request_outcome, Answered, request_handle-Answered}
use operating_system_whw.Request.Cases.{request_outcome-cases}
use operating_system_whw.Server.Worker.{Worker, stamped, count_request}

-- A response's lines on the thread are those of the worker.
abbrev pub ShowsCounts : Worker → Headers → Type 0
ShowsCounts w h =
    (h.thread_id ≡ w.thread_id)
    × (h.thread_count ≡ w.job_count)
    × (h.thread_static ≡ w.static_count)
    × (h.thread_dynamic ≡ w.dynamic_count)

-- The counts that a response shows are those of the worker. A page of an error shows none.
abbrev pub Shows : Worker → Response → Type 0
Shows w (error cause errnum shortmsg longmsg) = Unit {0}
Shows w (serve_static filename filetype filesize h) = ShowsCounts w h
Shows w (serve_dynamic filename cgiargs h) = ShowsCounts w h

-- The meta data counts what the worker counts, and so does the response; the worker has one job
-- more.
abbrev pub Agrees : Worker → Outcome → Type 0
Agrees w out =
    (out.2.requests_count ≡ (count_request w out.0).job_count)
    × (out.2.num_static_requests ≡ (count_request w out.0).static_count)
    × (out.2.num_dynamic_requests ≡ (count_request w out.0).dynamic_count)
    × ((count_request w out.0).job_count ≡ w.job_count + 1)
    × Shows (count_request w out.0) out.1

module _ (w : Worker) (now : TimeVal) (m : MetaData) (r : Request) where
  outcome-Agrees : Agrees w (request_outcome r (stamped w now m))
  unfolding count_request headers_of
  outcome-Agrees = elim (request_outcome-cases r (stamped w now m)) [
    | inl (cause, errnum, shortmsg, longmsg, e) ↦ rw e (refl, refl, refl, refl, _)
    | inr (inl (f, found, reg, may, st, e, k, shown)) ↦
        rw (e, shown, k) (refl, refl, refl, refl, (refl, refl, refl, refl))
    | inr (inr (f, found, reg, may, dy, e, k, shown)) ↦
        rw (e, shown, k) (refl, refl, refl, refl, (refl, refl, refl, refl))
  ]

  -- `requestHandle` answers a request with the meta data that the worker stamped, unless the method
  -- is GET and the headers have not ended within the tests made. When it answers, the counts in the
  -- meta data are those of the worker, jobs, static and dynamic requests, with the request counted,
  -- and a response that is not an error's page shows those counts and the thread's number.
  pub request_handle-Agrees : (fuel : ℕ) → Answered (Agrees w) fuel r (stamped w now m)
  request_handle-Agrees fuel =
      request_handle-Answered (Agrees w) fuel r (stamped w now m) outcome-Agrees
