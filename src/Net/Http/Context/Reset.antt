-- ===== src/Net/Http/Context/Reset.antt =====
-- What `reset` forgets, and what it leaves.
use ham.Net.Http.Context.Termination.{parse_request-got_all}
use ham.Net.Http.Context.{parse_request, new_request, Buffer, is_got_all, HttpContext, reset}
use ham.Net.Http.Request
use ham.Base.{ℕ, ◌≡◌, refl, true, none, arith, ok}

-- After `reset` the method, version, path, time and headers are those of a new request, but the query
-- and the body are the old ones and the parser stays in its state.
pub reset_fields :
    (c : HttpContext)
    → reset c ≡ record {
      request = record new_request { query = c.request.query; body = c.request.body };
      parse_state = c.parse_state;
    }
unfolding reset
reset_fields c = refl

-- A context that holds a whole request cannot be used for the next one: the loop never ends.
pub parse_request-reset :
    (fuel : ℕ) (c : HttpContext) (b : Buffer) (time : ℕ)
    → is_got_all c ≡ true
    → parse_request fuel (reset c) b time ≡ ok none
unfolding reset is_got_all
parse_request-reset fuel c b time h =
    parse_request-got_all fuel (record c { request = (Request.swap c.request new_request).0 }) b
      time (ground arith)
