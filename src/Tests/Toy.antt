-- ===== src/Tests/Toy.antt =====
-- A transparent instance of the cryptographic primitives, which satisfies their laws.
use cypher.Prelude.{
  length-take, length-replicate, ℕ, ◌+◌, ◌-◌, ◌≡◌, refl, ap, some, [], ◌∷◌, ◌++◌, length, take,
  replicate, get_or, length-append, take-append, arith,
}
use cypher.Prelude.Bytes.{Bytes}
use cypher.Prelude.Assoc.{some_injective}
use cypher.Crypto.Primitives.{Primitives, IsDh, IsAead, IsHmac}

abbrev tag : Bytes
tag = replicate 16 0

abbrev pub toy : Primitives
toy = record {
  hkdf = λ salt ikm info len. take len (salt ++ (ikm ++ (info ++ replicate len 0)));
  hmac = λ key message. take 32 (key ++ (message ++ replicate 32 0));
  public_key = λ secret. secret;
  diffie_hellman = λ secret public. (get_or secret 0 0 + get_or public 0 0) ∷ [];
  aes_gcm_encrypt = λ key nonce msg aad. some (msg ++ tag);
  aes_gcm_decrypt = λ key nonce c aad. some (take (length c - 16) c);
}

pub toy-IsDh : IsDh toy
toy-IsDh = record {
  dh_comm = λ a b.
      let swap : get_or a 0 0 + get_or b 0 0 ≡ get_or b 0 0 + get_or a 0 0 = omega arith in
      ap (λ (n : ℕ). n ∷ []) swap;
}

length-tagged : (m : Bytes) → length (m ++ tag) ≡ length m + 16
length-tagged m = omega (arith, length-append m tag)

pub toy-IsAead : IsAead toy
toy-IsAead = record {
  seals = λ key nonce msg aad small. (msg ++ tag, refl);
  opens = λ key nonce msg aad {c} e.
      let same = some_injective e in
      rw (← same) (
        ap some
          (take-append (length (msg ++ tag) - 16) msg tag (omega (arith, length-tagged msg))));
  length-sealed = λ key nonce msg aad {c} e. rw (← some_injective e) (length-tagged msg);
}

pub toy-IsHmac : IsHmac toy
toy-IsHmac = record {
  length-hmac = λ key message.
      let padded = key ++ (message ++ replicate 32 0) in
      omega (
        arith,
        length-take 32 padded,
        length-append key (message ++ replicate 32 0),
        length-append message (replicate 32 0),
        length-replicate {A = ℕ} 32 0,
      );
}
