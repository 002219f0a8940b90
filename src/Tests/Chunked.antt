-- ===== src/Tests/Chunked.antt =====
-- A stream whose socket takes two bytes and then all.
use palmira.Prelude.{◌≡◌, refl, true, false, List, [], ◌∷◌, arith}
use palmira.Tools.Chunked.{
  ChunkedStream, Reply, took, refused, put, flush_full, flush_rest, flush, put_each, put_raw,
  send_all, print_hex, hex_loop,
}
use palmira.Tools.Chunked.Wire.{empty, Written, AllSent, put-AllSent}

abbrev fresh_stream : List Reply → ChunkedStream
fresh_stream replies = record {
  no_fd = false;
  is_open = true;
  buffer = [];
  sent = [];
  replies = replies;
}

abbrev replies_of : List Reply
replies_of = took 2 ∷ took 9 ∷ took 9 ∷ took 9 ∷ []

no_bytes_put : Written 1023 [] (fresh_stream replies_of)
no_bytes_put = ([], empty, refl, omega arith)

three_sent :
    (flush_rest (put (65 ∷ 66 ∷ 67 ∷ []) (fresh_stream replies_of)).0).0.sent
    ≡ 51 ∷ 13 ∷ 10 ∷ 65 ∷ 66 ∷ 67 ∷ 13 ∷ 10 ∷ 13 ∷ 10 ∷ []
unfolding put flush_full flush_rest flush put_each put_raw send_all print_hex hex_loop
three_sent = refl

refused_closes : (flush_rest (put (65 ∷ []) (fresh_stream (refused ∷ []))).0).0.is_open ≡ false
unfolding put flush_full flush_rest flush put_each put_raw send_all print_hex hex_loop
refused_closes = refl

put-AllSent_example :
    AllSent (65 ∷ 66 ∷ 67 ∷ []) (put (65 ∷ 66 ∷ 67 ∷ []) (fresh_stream replies_of))
put-AllSent_example = put-AllSent (65 ∷ 66 ∷ 67 ∷ []) [] (fresh_stream replies_of) no_bytes_put
