-- ===== src/Onion/Circuit.antt =====
-- crates/cypher-client-core/src/onion/circuit.rs. What `new` draws at random is its arguments.
use cypher.Prelude.{ℕ, ◌+◌, ◌%◌, ◌^◌, ◌++◌, ◌≡◌, ap, length}
use cypher.Prelude.Bytes.{Bytes, IsU64, ascii, to_le}
use cypher.Crypto.Primitives.{Primitives, IsDh}

pub record Circuit : Type 0 where
  pub circuit_id : Bytes
  pub circuit_key : Bytes
  pub ephemeral_public : Bytes
  pub seq : ℕ

-- The lengths of the arrays and the range of the counter.
pub record IsCircuit (c : Circuit) : Type 0 where
  pub length-circuit_id : length c.circuit_id ≡ 16
  pub length-ephemeral_public : length c.ephemeral_public ≡ 32
  pub seq_range : IsU64 c.seq

module _ (p : Primitives) where
  unfoldable pub circuit_kdf : Bytes → Bytes
  circuit_kdf dh_shared = p.hkdf (ascii "cypher-circuit-v1") dh_shared (ascii "circuit-key") 32

  -- `Circuit::new`
  unfoldable pub new_circuit : (relay_static_pk ephemeral_secret random_id : Bytes) → Circuit
  new_circuit relay_static_pk ephemeral_secret random_id = record {
    circuit_id = random_id;
    circuit_key = circuit_kdf (p.diffie_hellman ephemeral_secret relay_static_pk);
    ephemeral_public = p.public_key ephemeral_secret;
    seq = 0;
  }

  unfoldable pub derive_relay_side :
      (relay_static_secret client_ephemeral_pk circuit_id : Bytes) → Circuit
  derive_relay_side relay_static_secret client_ephemeral_pk circuit_id = record {
    circuit_id = circuit_id;
    circuit_key = circuit_kdf (p.diffie_hellman relay_static_secret client_ephemeral_pk);
    ephemeral_public = client_ephemeral_pk;
    seq = 0;
  }

  -- From its own secret and the ephemeral public key of a new circuit the relay derives the circuit that
  -- the client made with the relay's public key: the same key and id.
  pub derive_relay_side-new_circuit :
      IsDh p
      → (relay_secret ephemeral_secret random_id : Bytes)
      → derive_relay_side relay_secret (p.public_key ephemeral_secret) random_id
        ≡ new_circuit (p.public_key relay_secret) ephemeral_secret random_id
  unfolding derive_relay_side new_circuit
  derive_relay_side-new_circuit laws relay_secret ephemeral_secret random_id =
      ap
        (λ dh_shared. record {
          circuit_id = random_id;
          circuit_key = circuit_kdf dh_shared;
          ephemeral_public = p.public_key ephemeral_secret;
          seq = 0;
        })
        (laws.dh_comm relay_secret ephemeral_secret)

-- `circuit_id || seq_no`, and `fetch_add`, which wraps.
unfoldable pub nonce_material : (circuit_id : Bytes) → (seq_no : ℕ) → Bytes
nonce_material circuit_id seq_no = circuit_id ++ to_le 8 seq_no

unfoldable pub next_nonce_material : Circuit → Bytes × Circuit
next_nonce_material c = (
  nonce_material c.circuit_id c.seq,
  record {
    circuit_id = c.circuit_id;
    circuit_key = c.circuit_key;
    ephemeral_public = c.ephemeral_public;
    seq = (c.seq + 1) % 2 ^ 64;
  },
)
