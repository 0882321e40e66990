-- ===== src/Intake/Guards.antt =====
-- The requests that `handle` of enclave/src/main.rs accepts: the tests of its first part.
use proof_of_observation.Base.{
  ℕ, ◌^◌, ◌≤◌, ◌<◌, ◌≡◌, refl, subst, ap, Bool, true, false, ◌&&◌, Option, none, some, List, [],
  ◌∷◌, ◌++◌, All, arith, Bytes, length, Result, ok, bind-eq-ok, ok_injective, ◌==◌, if◌then◌else◌,
}
use proof_of_observation.Text.{Text}
use proof_of_observation.Statement.{no_crlf}
use proof_of_observation.Http.Headers.Lines.{NoBreak, no_crlf-NoBreak}
use proof_of_observation.Wire.{
  write_frame, read_frame-write_frame, max_req_head, max_req_frame, req_head, req_body,
}
use proof_of_observation.Intake.{
  HandleError, head_frame, not_head, head_json, body_frame, not_body, nonce_base64,
  crlf_in_upstream, crlf_in_headers, crlf_in_token, Order, Decoders, or_err, check, headers_no_crlf,
  token_no_crlf, upstream_no_crlf, expect_frame, read_order,
}

-- No carriage return and no line feed in what the request head is written from, and a nonce that is
-- base64.
pub record IsGuarded (decoders : Decoders) (order : Order) : Type 0 where
  pub upstream : upstream_no_crlf order.head.upstream ≡ true
  pub headers : headers_no_crlf order.head.upstream.headers ≡ true
  pub token : token_no_crlf order.head.token ≡ true
  pub nonce : decoders.b64_decode order.head.nonce ≡ some order.nonce_bytes

pub or_err-ok : {E A : Type 0} (e : E) (o : Option A) (a : A) → or_err e o ≡ ok a → o ≡ some a
or_err-ok e none a h = cc
or_err-ok e (some b) a h = ap some (ok_injective b a h)

check-true : (b : Bool) (e : HandleError) (u : Unit) → check b e ≡ ok u → b ≡ true
check-true true e u h = refl
check-true false e u h = cc

-- What `read_order` has tested where it accepts.
read_order-IsGuarded :
    (decoders : Decoders) (input : Bytes) (order : Order)
    → read_order decoders input ≡ ok order
    → IsGuarded decoders order
unfolding read_order
read_order-IsGuarded decoders input order h =
    let (first, e₁, h₁) =
      bind-eq-ok (expect_frame head_frame not_head req_head max_req_head input) _ h in
    let (head, e₂, h₂) = bind-eq-ok (or_err head_json (decoders.head_of first.0)) _ h₁ in
    let (second, e₃, h₃) =
      bind-eq-ok (expect_frame body_frame not_body req_body max_req_frame first.1) _ h₂ in
    let (nonce_bytes, e₄, h₄) =
      bind-eq-ok (or_err nonce_base64 (decoders.b64_decode head.nonce)) _ h₃ in
    let (u, e₅, h₅) = bind-eq-ok (check (upstream_no_crlf head.upstream) crlf_in_upstream) _ h₄ in
    let (w, e₆, h₆) =
      bind-eq-ok (check (headers_no_crlf head.upstream.headers) crlf_in_headers) _ h₅ in
    let (t, e₇, h₇) = bind-eq-ok (check (token_no_crlf head.token) crlf_in_token) _ h₆ in
    subst (IsGuarded decoders) (ok_injective _ order h₇) (record {
      upstream = check-true _ crlf_in_upstream u e₅;
      headers = check-true _ crlf_in_headers w e₆;
      token = check-true _ crlf_in_token t e₇;
      nonce = or_err-ok nonce_base64 _ nonce_bytes e₄;
    })

-- No line break in the token, if there is one.
abbrev NoBreakToken : Option Text → Type 0
NoBreakToken none = Unit
NoBreakToken (some token) = NoBreak token

-- What the upstream's host, method and path, the map of headers and the token hold.
pub record IsClean (decoders : Decoders) (order : Order) : Type 0 where
  pub host : NoBreak order.head.upstream.host
  pub method : NoBreak order.head.upstream.method
  pub path : NoBreak order.head.upstream.path
  pub headers : All (λ h. NoBreak h.0 × NoBreak h.1) order.head.upstream.headers
  pub token : NoBreakToken order.head.token
  pub nonce : decoders.b64_decode order.head.nonce ≡ some order.nonce_bytes

and_both : (a b : Bool) → (a && b) ≡ true → (a ≡ true) × (b ≡ true)
and_both true b h = (refl, h)
and_both false b h = cc

headers-NoBreak :
    (headers : List (Text × Text))
    → headers_no_crlf headers ≡ true
    → All (λ h. NoBreak h.0 × NoBreak h.1) headers
unfolding headers_no_crlf
headers-NoBreak [] h = tt
headers-NoBreak ((k, v) ∷ headers) h =
    let (here, later) = and_both (no_crlf k && no_crlf v) (headers_no_crlf headers) h in
    let (name, value) = and_both (no_crlf k) (no_crlf v) here in
    ((no_crlf-NoBreak k name, no_crlf-NoBreak v value), headers-NoBreak headers later)

token-NoBreak : (token : Option Text) → token_no_crlf token ≡ true → NoBreakToken token
token-NoBreak none h = tt
token-NoBreak (some token) h = no_crlf-NoBreak token h

IsGuarded-IsClean :
    (decoders : Decoders) (order : Order) → IsGuarded decoders order → IsClean decoders order
IsGuarded-IsClean decoders order g =
    let u = order.head.upstream in
    let (host, rest) = and_both (no_crlf u.host) (no_crlf u.method && no_crlf u.path) g.upstream in
    let (method, path) = and_both (no_crlf u.method) (no_crlf u.path) rest in
    record {
      host = no_crlf-NoBreak u.host host;
      method = no_crlf-NoBreak u.method method;
      path = no_crlf-NoBreak u.path path;
      headers = headers-NoBreak u.headers g.headers;
      token = token-NoBreak order.head.token g.token;
      nonce = g.nonce;
    }

-- In a request that is accepted, the upstream's host, method and path, the names and values of the
-- map `headers`, and the token, if there is one, have no CR and no LF among their characters, and
-- the nonce decodes to the bytes that are kept. Of the template `headers_ordered` this says nothing.
pub read_order-IsClean :
    (decoders : Decoders) (input : Bytes) (order : Order)
    → read_order decoders input ≡ ok order
    → IsClean decoders order
read_order-IsClean decoders input order h =
    IsGuarded-IsClean decoders order (read_order-IsGuarded decoders input order h)

same-type : (t : ℕ) (a b : Result HandleError (Bytes × Bytes)) → (if t == t then a else b) ≡ a
same-type t a b = let e : (t == t) ≡ true = ground arith in rw e refl

expect_frame-write_frame :
    (unread : _) (other : ℕ → HandleError) (t max : ℕ) (payload rest : Bytes)
    → length payload < 2 ^ 32
    → length payload ≤ max
    → expect_frame unread other t max (write_frame [] t payload ++ rest) ≡ ok (payload, rest)
unfolding expect_frame
expect_frame-write_frame unread other t max payload rest small fits =
    rw (read_frame-write_frame max t payload rest small fits) (same-type t _ _)

-- Two frames of the right types, whose head is JSON, whose nonce is base64 and which pass the tests,
-- are accepted, and make the request that they hold.
pub read_order-accepts :
    (decoders : Decoders) (head_bytes rest : Bytes) (order : Order)
    → length head_bytes ≤ max_req_head
    → length order.body ≤ max_req_frame
    → decoders.head_of head_bytes ≡ some order.head
    → IsGuarded decoders order
    → read_order decoders
        (write_frame [] req_head head_bytes ++ (write_frame [] req_body order.body ++ rest))
      ≡ ok order
unfolding read_order
read_order-accepts decoders head_bytes rest order h b e g =
    rw
      (
        expect_frame-write_frame head_frame not_head req_head max_req_head head_bytes
            (write_frame [] req_body order.body ++ rest) (omega arith) h,
        e,
        expect_frame-write_frame body_frame not_body req_body max_req_frame order.body rest
            (omega arith) b,
        g.nonce,
        g.upstream,
        g.headers,
        g.token,
      )
      refl
