-- ===== src/Tests/Zones.antt =====
-- fs/bitmap.c: a device with one map block, of which the bit 0 is in use.
use rv.Common.{some, none, [], ◌∷◌, if◌then◌else◌, ◌==◌}
use rv.Fs.Bitmap.{Super, new_block}
use rv.Fs.Bitmap.Take.{TakesZone, new_block-TakesZone}

abbrev super : Super
super = record {
  s_nzones = 100;
  s_firstdatazone = 20;
  s_zmap = some (λ i. if i == 0 then 1 else 0) ∷ [];
}

new_block-TakesZone_example : TakesZone (λ _. none) super (new_block (λ _. none) super)
new_block-TakesZone_example = new_block-TakesZone (λ _. none) super
