-- ===== src/External.antt =====
-- libuv, OpenSSL and V8: the answers of their calls, as functions of the number of calls made
-- before, so that two equal calls may be answered differently.
use runtime_system.Base.{
  ℕ, ◌+◌, ℤ, Bool, String, List, [], ◌∷◌, ◌++◌, Option, is_zero, if◌then◌else◌,
}
use runtime_system.Value.{TryCatch}
use runtime_system.State.{World, Operation, TlsLoop}

-- What `SSL_get_error` tells apart.
pub data SslError : Type 0 where
  want_read want_write zero_return other_error : SslError

pub record External : Type 0 where
  -- `uv_strerror`
  pub strerror : ℤ → String
  -- what a libuv call that ends with a callback returns: 0 unless it is refused
  pub submit : (tick : ℕ) → Operation → ℤ
  -- the socket of a new `uv_tcp_t` or `uv_udp_t`
  pub socket : (tick : ℕ) → ℕ
  pub tcp_bind : (tick : ℕ) → (host : String) (port : ℤ) → ℤ
  pub listen : (tick socket : ℕ) → ℤ
  pub udp_bind : (tick : ℕ) → (host : String) (port : ℤ) → ℤ
  -- `uv_fileno`: the descriptor, if it returns 0
  pub fileno : (tick socket : ℕ) → Option ℤ
  -- `uv_accept`: the client's socket, if it returns 0
  pub accept : (tick socket : ℕ) → Option ℕ
  -- `SSL_accept`, `SSL_connect`, `SSL_read`, `SSL_write` and `SSL_shutdown`
  pub ssl_call : (tick ssl : ℕ) → TlsLoop → ℤ
  pub ssl_get_error : (tick ssl : ℕ) → ℤ → SslError
  pub ssl_ctx_new : (tick : ℕ) → Option ℕ
  -- `PEM_read_bio_PrivateKey` and `PEM_read_bio_X509` on a memory BIO
  pub parse_key : List ℕ → Option ℕ
  pub parse_cert : List ℕ → Option ℕ
  -- `v8::String::Utf8Value` and `v8::String::NewFromUtf8`
  pub utf8_value : String → List ℕ
  pub new_from_utf8 : List ℕ → Option String
  -- whether `v8::Module::Evaluate` gives an empty result for an exception of the entry module; where V8
  -- gives a rejected promise, it does not
  pub evaluate_is_empty : TryCatch → Bool

-- One more call of a library.
unfoldable pub ticked : World → World
ticked w = record w { tick = w.tick + 1 }

-- A libuv call that ends with a callback for the context `c`: what it returns, and the request in
-- libuv's hands unless it was refused.
unfoldable pub submit : External → ℕ → Operation → World → ℤ × World
unfolding ticked
submit x c op w =
    let r = x.submit w.tick op in
    (r, if is_zero r then record (ticked w) { requests = w.requests ++ (c, op) ∷ [] } else ticked w)
