-- ===== src/Worker/Run/Request.antt =====
-- The text that each connection of a run sends, over and over (`run_with_ticks_cancel`, worker.rs). The
-- parts of the URL, as `http::Uri` gives them, are its inputs.
use correctness_bench.Common.{
  ℕ, Option, none, some, [], ◌∷◌, ◌++◌, Bytes, codes, decimal, ◌==◌, if◌then◌else◌,
}

-- `host_header`
unfoldable pub host_header : Bytes → ℕ → Bytes
host_header host port = if port == 80 then host else host ++ (b':' ∷ decimal port)

-- `path`, of the URL's path and query
unfoldable pub path_of : Option Bytes → Bytes
path_of none = codes "/"
path_of (some p) = p

abbrev crlf : Bytes → Bytes
crlf s = b'\r' ∷ b'\n' ∷ s

-- `req_bytes`
unfoldable pub req_bytes : Bytes → Bytes → Bytes → Bytes
req_bytes method path host_header =
    method
    ++ (b' '
        ∷ (path
            ++ (codes " HTTP/1.1"
                ++ crlf (
                    codes "Host: "
                    ++ (host_header
                        ++ crlf (
                            codes "Accept: */*"
                            ++ crlf (
                                codes "Connection: keep-alive"
                                ++ crlf
                                    (codes "User-Agent: engine-worker/0.1" ++ crlf (crlf [])))))))))
