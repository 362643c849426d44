-- ===== src/Examples/Http.antt =====
-- examples/http_world.rs: the payload that gathers frames until they are a request. The parser (the crate
-- httparse) and the builder of a request (the crate http) are parameters, as is the byte; `ParserLaws`
-- states what the parser's documentation says of a buffer that grows.
pub mod Framing
use tokactor.Common.{◌≡◌, Option, none, some, List, [], ◌++◌, Flow, ok, panicked, blocked, ◌>>=◌}
use tokactor.Io.Frame.{Read, as_slice}

-- `Result<Status<usize>, Error>` of `Request::parse`, with what the request was filled with
pub data Parsed (Rq : Type 0) : Type 0 where
  complete : Rq → Parsed Rq
  partial : Parsed Rq
  invalid : Parsed Rq

-- Nothing is a request yet; and what was read of a buffer stands when more comes behind it.
pub record ParserLaws {B Rq : Type 0} (parse : List B → Parsed Rq) : Type 0 where
  pub parse_empty : parse [] ≡ partial
  pub parse_complete :
      (bs cs : List B) (r : Rq) → parse bs ≡ complete r → parse (bs ++ cs) ≡ complete r
  pub parse_invalid : (bs cs : List B) → parse bs ≡ invalid → parse (bs ++ cs) ≡ invalid

module _ {B Rq Q : Type 0} (parse : List B → Parsed Rq) (build : Rq → Option Q) where
  -- `builder.body(()).unwrap()`
  abbrev pub built : List B → Option Q → Flow (List B × Option Q)
  built bytes (some q) = ok (bytes, some q)
  built bytes none = panicked

  abbrev pub on_parsed : List B → Parsed Rq → Flow (List B × Option Q)
  on_parsed bytes (complete r) = built bytes (build r)
  on_parsed bytes partial = ok (bytes, none)
  on_parsed bytes invalid = panicked

  -- `Data::recv`
  unfoldable pub recv : List B → Read B → Flow (List B × Option Q)
  recv bytes frame = do more ← as_slice frame; on_parsed (bytes ++ more) (parse (bytes ++ more))

  -- As the reader actor takes it, for frames at which it does not panic.
  abbrev pub recv_quiet : List B → Read B → List B × Option Q
  recv_quiet bytes frame = settle (recv bytes frame)
    where
      settle : Flow (List B × Option Q) → List B × Option Q
      settle (ok p) = p
      settle panicked = (bytes, none)
      settle blocked = (bytes, none)
