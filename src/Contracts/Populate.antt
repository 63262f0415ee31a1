-- ===== src/Contracts/Populate.antt =====
-- tasks/populate-descriptor.ts: the calls of the descriptor contract that fill it with the parts.
use web3_nft.Prelude.{
  ℕ, suc, ◌≤◌, String, ◌≡◌, refl, sym, ap, ◌∙◌, Option, some, List, [], ◌∷◌, ◌++◌, map, arith,
  length, All, All-append,
}
use mathlib.Core.List.{append-nil, append_assoc}
use web3_nft.Assets.{EncodedImage, ImageData}
use web3_nft.Assets.{◌>>=◌}
use web3_nft.Contracts.Chunks.{chunk_array, concat, IsChunk, chunk_array-IsChunk}

pub data Call : Type 0 where
  add_many_backgrounds : List String → Call
  add_many_colors_to_palette : ℕ → List String → Call
  add_many_bodies : List String → Call
  add_many_accessories : List String → Call
  add_many_heads : List String → Call
  add_many_glasses : List String → Call

abbrev pub data_of : List EncodedImage → List String
data_of images = map (λ (image : EncodedImage). image.data_text) images

-- One call for each chunk of ten.
unfoldable pub chunked : (List String → Call) → List (List EncodedImage) → List Call
chunked call chunks = map (λ chunk. call (data_of chunk)) chunks

unfoldable pub populate_descriptor : ImageData → List String → Option (List Call)
unfolding chunked
populate_descriptor images palette = do
  accessory_chunk ← chunk_array images.accessories 10
  head_chunk ← chunk_array images.heads 10
  some (
      add_many_backgrounds images.bgcolors
      ∷ add_many_colors_to_palette 0 palette
      ∷ add_many_bodies (data_of images.bodies)
      ∷ (chunked add_many_accessories accessory_chunk
          ++ (chunked add_many_heads head_chunk ++ add_many_glasses (data_of images.glasses) ∷ [])))

-- What the descriptor has been sent, kind by kind in the order of the calls.
pub record Sent : Type 0 where
  pub bgcolors : List String
  pub bodies : List String
  pub accessories : List String
  pub heads : List String
  pub glasses : List String

unfoldable pub receive : Call → Sent → Sent
receive (add_many_backgrounds xs) s = record s { bgcolors = s.bgcolors ++ xs }
receive (add_many_colors_to_palette i xs) s = s
receive (add_many_bodies xs) s = record s { bodies = s.bodies ++ xs }
receive (add_many_accessories xs) s = record s { accessories = s.accessories ++ xs }
receive (add_many_heads xs) s = record s { heads = s.heads ++ xs }
receive (add_many_glasses xs) s = record s { glasses = s.glasses ++ xs }

unfoldable pub receive_all : List Call → Sent → Sent
receive_all [] s = s
receive_all (c ∷ cs) s = receive_all cs (receive c s)

-- At most ten data in a call that sends accessories or heads.
abbrev pub IsSmall : Call → Type 0
IsSmall (add_many_accessories xs) = length xs ≤ 10
IsSmall (add_many_heads xs) = length xs ≤ 10
IsSmall _ = Unit

receive_all-append :
    (xs ys : List Call) (s : Sent) → receive_all (xs ++ ys) s ≡ receive_all ys (receive_all xs s)
unfolding receive_all
receive_all-append [] ys s = refl
receive_all-append (x ∷ xs) ys s = receive_all-append xs ys (receive x s)

data_of-append : (xs ys : List EncodedImage) → data_of (xs ++ ys) ≡ data_of xs ++ data_of ys
data_of-append [] ys = refl
data_of-append (x ∷ xs) ys = ap (λ l. x.data_text ∷ l) (data_of-append xs ys)

receive_accessories :
    (chunks : List (List EncodedImage)) (s : Sent)
    → receive_all (chunked add_many_accessories chunks) s
      ≡ record s { accessories = s.accessories ++ data_of (concat chunks) }
unfolding receive_all chunked receive concat
receive_accessories [] s = ap (λ l. record s { accessories = l }) (sym (append-nil s.accessories))
receive_accessories (c ∷ cs) s =
    receive_accessories cs (record s { accessories = s.accessories ++ data_of c })
    ∙ ap (λ l. record s { accessories = l })
        (append_assoc s.accessories (data_of c) (data_of (concat cs))
          ∙ ap (λ l. s.accessories ++ l) (sym (data_of-append c (concat cs))))

receive_heads :
    (chunks : List (List EncodedImage)) (s : Sent)
    → receive_all (chunked add_many_heads chunks) s
      ≡ record s { heads = s.heads ++ data_of (concat chunks) }
unfolding receive_all chunked receive concat
receive_heads [] s = ap (λ l. record s { heads = l }) (sym (append-nil s.heads))
receive_heads (c ∷ cs) s =
    receive_heads cs (record s { heads = s.heads ++ data_of c })
    ∙ ap (λ l. record s { heads = l })
        (append_assoc s.heads (data_of c) (data_of (concat cs))
          ∙ ap (λ l. s.heads ++ l) (sym (data_of-append c (concat cs))))

length-data_of : (xs : List EncodedImage) → length (data_of xs) ≡ length xs
length-data_of [] = refl
length-data_of (x ∷ xs) = ap suc (length-data_of xs)

module _ (call : List String → Call)
    (small : (xs : List String) → length xs ≤ 10 → IsSmall (call xs)) where
  chunked-IsSmall :
      (chunks : List (List EncodedImage))
      → All (IsChunk 10) chunks
      → All IsSmall (chunked call chunks)
  unfolding chunked
  chunked-IsSmall [] h = tt
  chunked-IsSmall (c ∷ cs) ((p, q), h) =
      (small (data_of c) (omega (arith, length-data_of c)), chunked-IsSmall cs h)

abbrev pub nothing_sent : Sent
nothing_sent = record { bgcolors = []; bodies = []; accessories = []; heads = []; glasses = [] }

-- The colors of the backgrounds, and the data of all parts in the order of the file.
abbrev pub all_sent : ImageData → Sent
all_sent images = record {
  bgcolors = images.bgcolors;
  bodies = data_of images.bodies;
  accessories = data_of images.accessories;
  heads = data_of images.heads;
  glasses = data_of images.glasses;
}

-- The calls are made whatever the image data; a new descriptor has then the data of all parts in the
-- order of the file, and no call sends more than ten accessories or heads.
pub populate_descriptor-IsSmall :
    (images : ImageData) (palette : List String)
    → (calls : List Call) × ((populate_descriptor images palette ≡ some calls)
        × (receive_all calls nothing_sent ≡ all_sent images)
        × All IsSmall calls)
unfolding populate_descriptor receive_all receive
populate_descriptor-IsSmall images palette =
    let (accessories, (accessories_done, accessories_whole, accessories_small)) =
      chunk_array-IsChunk images.accessories 10 (omega arith) in
    let (heads, (heads_done, heads_whole, heads_small)) =
      chunk_array-IsChunk images.heads 10 (omega arith) in
    let last = add_many_glasses (data_of images.glasses) ∷ [] in
    let first : Sent = record nothing_sent {
      bgcolors = images.bgcolors;
      bodies = data_of images.bodies;
    } in
    (
      add_many_backgrounds images.bgcolors
          ∷ add_many_colors_to_palette 0 palette
          ∷ add_many_bodies (data_of images.bodies)
          ∷ (chunked add_many_accessories accessories ++ (chunked add_many_heads heads ++ last)),
      (
        rw (accessories_done, heads_done) refl,
        receive_all-append (chunked add_many_accessories accessories)
              (chunked add_many_heads heads ++ last) first
            ∙ ap (receive_all (chunked add_many_heads heads ++ last))
                (receive_accessories accessories first)
            ∙ receive_all-append (chunked add_many_heads heads) last _
            ∙ ap (receive_all last) (receive_heads heads _)
            ∙ ap
                (λ (l : List EncodedImage). record (all_sent images) {
                  accessories = data_of l;
                  heads = data_of (concat heads);
                })
                accessories_whole
            ∙ ap (λ (l : List EncodedImage). record (all_sent images) { heads = data_of l })
                heads_whole,
        (
          tt,
          (
            tt,
            (
              tt,
              All-append IsSmall _ _
                  (chunked-IsSmall add_many_accessories (λ xs h. h) accessories accessories_small)
                  (All-append IsSmall _ _
                    (chunked-IsSmall add_many_heads (λ xs h. h) heads heads_small) (tt, tt)),
            ),
          ),
        ),
      ),
    )
