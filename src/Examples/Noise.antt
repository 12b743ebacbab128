-- ===== src/Examples/Noise.antt =====
-- Three messages over a stream, through a transport that only appends a tag.
use mouse_without_borders.Base.{
  ℕ, ◌+◌, ◌-◌, ◌≡◌, refl, List, [], ◌∷◌, ◌++◌, length, length-append, take, ok, arith,
}
use mouse_without_borders.Crypto.Noise.{Transport}
use mouse_without_borders.Crypto.Noise.Delivery.{TransportLaws, sent, receive_all, receive_all-sent}
use mouse_without_borders.Examples.Audio.{tag, tag_off}

-- The state is the number of messages so far.
abbrev toy : Transport
toy = record {
  State = ℕ;
  SnowError = Unit {0};
  write_message = λ n message. (n + 1, ok (message ++ tag));
  read_message = λ n sealed. (n + 1, ok (take (length sealed - 16) sealed));
}

abbrev toy_laws : TransportLaws toy
toy_laws = record {
  Paired = λ n w r. w ≡ r;
  delivers = λ n w r message paired small. (
    w + 1,
    r + 1,
    message ++ tag,
    refl,
    omega (arith, length-append message tag),
    ground (arith, tag_off message),
    ground arith,
  );
}

abbrev messages : List (List ℕ)
messages = (1 ∷ 2 ∷ []) ∷ [] ∷ (3 ∷ []) ∷ []

receive_all-sent_example :
    receive_all toy 0 3 (sent toy 0 messages ++ 9 ∷ []) ≡ ok (messages, 9 ∷ [])
receive_all-sent_example = receive_all-sent toy toy_laws messages 0 0 (9 ∷ []) refl
