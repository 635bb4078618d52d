-- ===== src/Okx/Run/Healthy.antt =====
-- The states that an OKX client reaches.
use cryptomeria.Common.{ℕ, true, String, ◌≡◌, refl, Bool-cases, inl, inr}
use cryptomeria.Float.{Float, IsLawful}
use cryptomeria.Book.Invariant.{IsValid, new-IsValid, process_msg-IsValid}
use cryptomeria.Persistence.{Ingress}
use cryptomeria.Client.{Client, Clock, Numerals, key_of, lob_filter}
use cryptomeria.Client.Settings.{settings}
use cryptomeria.Client.Marks.{marks_of}
use cryptomeria.Okx.Types.{OkxWsMessage, message_type, is_present}
use cryptomeria.Okx.Client.{Serde, Link, on_message}
use cryptomeria.Okx.Lob.{process_msg, format, parse_levels}
use cryptomeria.Okx.Client.Books.{settings-on_message, order_book-on_message, is_book}
use cryptomeria.Okx.Run.{Reading, okx, link_of}
use cryptomeria.Okx.Run.Marks.{marks_of-on_message}
use cryptomeria.Connection.{Machine, start, Reach}
use cryptomeria.Connection.Healthy.{Keeps, IsHealthy, Reach-IsHealthy}

abbrev pub BookIsValid {ℓ} : {F : Type ℓ} ⦃f : Float F⦄ → Reading F → Type 0
BookIsValid r = IsValid r.order_book

module _ {ℓ κ μ ν} {F : Type ℓ} {V : Type κ} {S : Type μ} {B : Type ν} ⦃f : Float F⦄
    (lawful : IsLawful F) (serde : Serde F V) (questdb : Ingress S B F)
    (numerals : Numerals F) where
  on_message-IsValid :
      (clock : Clock) (msg : OkxWsMessage V) (link : Link F S)
      → IsValid link.order_book
      → IsValid (on_message serde questdb numerals clock msg link).order_book
  unfolding process_msg
  on_message-IsValid clock msg link v =
      rw (order_book-on_message serde questdb numerals clock msg link)
        (elim (Bool-cases (is_book (message_type msg))) [
          | inl e ↦ rw e (
              process_msg-IsValid format lawful.preorder (parse_levels serde.json) link.order_book
                msg.items msg.action (lob_filter link.client) v)
          | inr e ↦ rw e v
        ])

  pub okx-Keeps : Keeps (okx serde questdb numerals) BookIsValid
  okx-Keeps = record {
    begin_well = λ instant. new-IsValid;
    handle_well = λ clock msg client b.
        on_message-IsValid clock msg (link_of serde questdb numerals (client, b));
    handle_settings = λ clock msg client b.
        settings-on_message serde questdb numerals clock msg
          (link_of serde questdb numerals (client, b));
    handle_marks = λ key clock msg client b.
        marks_of-on_message serde questdb numerals key clock msg
          (link_of serde questdb numerals (client, b));
    refused_settings = λ now n client. refl;
    refused_present = λ now n client h. h;
  }

  -- If the prices are lawful and the client has an entry in the status map, then in every state that
  -- an OKX client reaches it has its entry and its settings, and while it reads, its count of attempts
  -- is 0, its status is active and names the subscription, and its book is valid.
  pub Reach-okx :
      (show_u32 : ℕ → String) (client : Client F S) (m : Machine F S (Reading F))
      → is_present (marks_of (key_of client) client) ≡ true
      → Reach show_u32 (okx serde questdb numerals) (start client) m
      → IsHealthy (okx serde questdb numerals) BookIsValid (settings client) m
  Reach-okx show_u32 client m entry r =
      Reach-IsHealthy show_u32 (okx serde questdb numerals) BookIsValid okx-Keeps (settings client)
        r ((refl, entry), tt)
