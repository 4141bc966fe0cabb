-- ===== src/Drm/Tags.antt =====
-- The four-byte tags that src/drm/cenc.rs names, as big-endian numbers.
use mediaflow_proxy_light.Base.{ℕ}

abbrev pub moov : ℕ
moov = 0x6d6f6f76

abbrev pub moof : ℕ
moof = 0x6d6f6f66

abbrev pub sidx : ℕ
sidx = 0x73696478

abbrev pub mdat : ℕ
mdat = 0x6d646174

abbrev pub ftyp : ℕ
ftyp = 0x66747970

abbrev pub trak : ℕ
trak = 0x7472616b

abbrev pub pssh : ℕ
pssh = 0x70737368

abbrev pub tkhd : ℕ
tkhd = 0x746b6864

abbrev pub mdia : ℕ
mdia = 0x6d646961

abbrev pub minf : ℕ
minf = 0x6d696e66

abbrev pub stbl : ℕ
stbl = 0x7374626c

abbrev pub stsd : ℕ
stsd = 0x73747364

abbrev pub mp4a : ℕ
mp4a = 0x6d703461

abbrev pub enca : ℕ
enca = 0x656e6361

abbrev pub mp4v : ℕ
mp4v = 0x6d703476

abbrev pub encv : ℕ
encv = 0x656e6376

abbrev pub avc1 : ℕ
avc1 = 0x61766331

abbrev pub hev1 : ℕ
hev1 = 0x68657631

abbrev pub hvc1 : ℕ
hvc1 = 0x68766331

abbrev pub sinf : ℕ
sinf = 0x73696e66

abbrev pub schi : ℕ
schi = 0x73636869

abbrev pub tenc : ℕ
tenc = 0x74656e63

abbrev pub schm : ℕ
schm = 0x7363686d

abbrev pub frma : ℕ
frma = 0x66726d61

abbrev pub traf : ℕ
traf = 0x74726166

abbrev pub tfhd : ℕ
tfhd = 0x74666864

abbrev pub trun : ℕ
trun = 0x7472756e

abbrev pub senc : ℕ
senc = 0x73656e63

abbrev pub saiz : ℕ
saiz = 0x7361697a

abbrev pub saio : ℕ
saio = 0x7361696f
