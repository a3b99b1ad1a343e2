-- ===== src/Tunnel/Server/Broadcast.antt =====
-- Which packets of the server's device a client gets.
use dep_srpc.Base.{
  ℕ, ◌≡◌, refl, ap, sym, ◌∙◌, arith, Bool, true, false, ◌==◌, if◌then◌else◌, Bool-cases, inl, inr,
  List, [], ◌∷◌, ◌++◌,
}
use dep_srpc.Tunnel.Packets.{
  Written, to_device, ignored, outside, on_read, on_message, my_size_policy,
}
use dep_srpc.Tunnel.Server.{
  Server, Event, transport_read, start_accept, crashes, transport_write, device_write, Op, accepts,
  removes, device_reads, client_message, closes, has, insert, erase, on_accept_client,
  remove_client, write_to_all, write_to_clients, write_to_device, on_close, step, run,
}

-- What is written to the transport of a client.
unfoldable pub writes_to : ℕ → List Event → List (List ℕ)
writes_to k [] = []
writes_to k (transport_write m bytes ∷ es) =
    let rest = writes_to k es in if m == k then bytes ∷ rest else rest
writes_to k (transport_read m ∷ es) = writes_to k es
writes_to k (start_accept ∷ es) = writes_to k es
writes_to k (crashes ∷ es) = writes_to k es
writes_to k (device_write bytes ∷ es) = writes_to k es

-- The reference: the packets read while the client is connected, which it is at first where `now`
-- says so.
unfoldable pub packets_for : ℕ → List Op → Bool → List (List ℕ)
packets_for k [] now = []
packets_for k (accepts m ∷ ops) now = packets_for k ops (if m == k then true else now)
packets_for k (removes m ∷ ops) now = packets_for k ops (if m == k then false else now)
packets_for k (device_reads bytes ∷ ops) now =
    (if now then on_read my_size_policy bytes ∷ [] else []) ++ packets_for k ops now
packets_for k (client_message m bytes ∷ ops) now = packets_for k ops now
packets_for k (closes ∷ ops) now = packets_for k ops false

-- No key is in the map twice.
abbrev pub Unique : List ℕ → Type 0
Unique [] = Unit
Unique (m ∷ ms) = (has m ms ≡ false) × Unique ms

writes_to-append :
    (k : ℕ) (xs ys : List Event) → writes_to k (xs ++ ys) ≡ writes_to k xs ++ writes_to k ys
unfolding writes_to
writes_to-append k [] ys = refl
writes_to-append k (transport_write m bytes ∷ xs) ys = elim (Bool-cases (m == k)) [
  | inl e ↦ rw (e, writes_to) (ap (λ t. bytes ∷ t) (writes_to-append k xs ys))
  | inr e ↦ rw (e, writes_to) (writes_to-append k xs ys)
]
writes_to-append k (transport_read m ∷ xs) ys = writes_to-append k xs ys
writes_to-append k (start_accept ∷ xs) ys = writes_to-append k xs ys
writes_to-append k (crashes ∷ xs) ys = writes_to-append k xs ys
writes_to-append k (device_write bytes ∷ xs) ys = writes_to-append k xs ys

same_key : (m k : ℕ) → (m == k) ≡ true → m ≡ k
same_key m k e = ground arith

-- A list without the key writes nothing to it, and a list in which no key stands twice one string.
writes_to-write_to_all :
    (k : ℕ) (str : List ℕ) (ms : List ℕ)
    → Unique ms
    → writes_to k (write_to_all str ms) ≡ (if has k ms then str ∷ [] else [])
unfolding writes_to write_to_all has
writes_to-write_to_all k str [] u = refl
writes_to-write_to_all k str (m ∷ ms) (new, u) = elim (Bool-cases (m == k)) [
  | inl e ↦
      let absent : has k ms ≡ false = ap (λ t. has t ms) (sym (same_key m k e)) ∙ new in
      let rest : writes_to k (write_to_all str ms) ≡ [] =
        writes_to-write_to_all k str ms u ∙ (rw absent refl) in
      rw (e, rest) refl
  | inr e ↦ rw (e, writes_to, has) (writes_to-write_to_all k str ms u)
]

has-erase : (k m : ℕ) (ms : List ℕ) → has k (erase m ms) ≡ (if m == k then false else has k ms)
unfolding has erase
has-erase k m [] = elim (Bool-cases (m == k)) [ inl e ↦ rw e refl | inr e ↦ rw e refl ]
has-erase k m (x ∷ xs) = elim (Bool-cases (x == m)) [
  | inl e ↦ elim (Bool-cases (m == k)) [
    | inl f ↦ rw (e, f) (has-erase k m xs ∙ (rw f refl))
    | inr f ↦
        let other : (x == k) ≡ false = ap (λ t. t == k) (same_key x m e) ∙ f in
        rw (e, f, other) (has-erase k m xs ∙ (rw f refl))
  ]
  | inr e ↦ elim (Bool-cases (m == k)) [
    | inl f ↦
        let other : (x == k) ≡ false = ap (λ t. x == t) (sym (same_key m k f)) ∙ e in
        rw (e, has, other, f) (has-erase k m xs ∙ (rw f refl))
    | inr f ↦ rw (e, has, f) (ap (λ t. if x == k then true else t) (has-erase k m xs ∙ (rw f refl)))
  ]
]

erase-Unique : (m : ℕ) (ms : List ℕ) → Unique ms → Unique (erase m ms)
unfolding erase
erase-Unique m [] u = tt
erase-Unique m (x ∷ xs) (new, u) = elim (Bool-cases (x == m)) [
  | inl e ↦ rw e (erase-Unique m xs u)
  | inr e ↦
      let other : (m == x) ≡ false = ground arith in
      rw e (has-erase x m xs ∙ (rw (other, new) refl), erase-Unique m xs u)
]

has-insert : (k m : ℕ) (ms : List ℕ) → has k (insert m ms) ≡ (if m == k then true else has k ms)
unfolding insert has
has-insert k m ms = elim (Bool-cases (has m ms)) [
  | inl e ↦ elim (Bool-cases (m == k)) [
    | inl f ↦ rw (e, f) (ap (λ t. has t ms) (sym (same_key m k f)) ∙ e)
    | inr f ↦ rw (e, f) refl
  ]
  | inr e ↦ rw e refl
]

insert-Unique : (m : ℕ) (ms : List ℕ) → Unique ms → Unique (insert m ms)
unfolding insert
insert-Unique m ms u = elim (Bool-cases (has m ms)) [ inl e ↦ rw e u | inr e ↦ rw e (e, u) ]

writes_to-device : (k : ℕ) (w : Written) → writes_to k (write_to_device w) ≡ []
unfolding writes_to write_to_device
writes_to-device k (to_device bytes) = refl
writes_to-device k ignored = refl
writes_to-device k outside = refl

-- From a map in which no key stands twice, in every history in which clients come and go: a client
-- is written each packet that the device reads while it is connected once, in order, and nothing
-- else.
pub run-writes_to :
    (k : ℕ) (ops : List Op) (s : Server)
    → Unique s.all_clients
    → writes_to k (run ops s).1 ≡ packets_for k ops (has k s.all_clients)
unfolding run step writes_to packets_for on_accept_client remove_client on_close write_to_clients
run-writes_to k [] s u = refl
run-writes_to k (accepts m ∷ ops) s u =
    run-writes_to k ops (on_accept_client m s).0 (insert-Unique m s.all_clients u)
    ∙ ap (λ t. packets_for k ops t) (has-insert k m s.all_clients)
run-writes_to k (removes m ∷ ops) s u =
    run-writes_to k ops (remove_client m s) (erase-Unique m s.all_clients u)
    ∙ ap (λ t. packets_for k ops t) (has-erase k m s.all_clients)
run-writes_to k (device_reads bytes ∷ ops) s u =
    let str : List ℕ = on_read my_size_policy bytes in
    writes_to-append k (write_to_all str s.all_clients) (run ops s).1
    ∙ ap (λ t. t ++ writes_to k (run ops s).1) (writes_to-write_to_all k str s.all_clients u)
    ∙ ap (λ t. (if has k s.all_clients then str ∷ [] else []) ++ t) (run-writes_to k ops s u)
run-writes_to k (client_message m bytes ∷ ops) s u =
    writes_to-append k (write_to_device (on_message bytes)) (run ops s).1
    ∙ ap (λ t. t ++ writes_to k (run ops s).1) (writes_to-device k (on_message bytes))
    ∙ run-writes_to k ops s u
run-writes_to k (closes ∷ ops) s u =
    run-writes_to k ops (on_close s) tt ∙ ap (λ t. packets_for k ops t) (unfold has in refl)
